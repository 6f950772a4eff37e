-- ===== src/ShardController/Server/Sound.antt =====
-- The configurations that the controller makes: the commands that it can apply without a fault.
use distributed_database.Prelude.{
  ℕ, ◌+◌, ◌<◌, ◌≡◌, ap, true, ==_iff, refl, sym, subst, ◌∙◌, ◌⊎◌, inl, inr, List, [], ◌∷◌, ◌++◌,
  Option, none, some, ok, length, length-set, get_elem?-set_self, get_elem?-set_ne, set, All, arith,
  lt→ltb, Bool-cases, lookup, insert, lookup-insert, nat_eq, Has,
}
use distributed_database.ShardController.Types.{Config, Command, join, leave, move, query, Store}
use distributed_database.ShardController.Rebalance.{keys}
use distributed_database.ShardController.Server.{
  add_groups, drop_groups, next_config, is_duplicate, client_of, apply_command,
}
use distributed_database.ShardController.Server.Fair.{
  IsSound, IsFair, rebalance-IsFair, conf-ok, drop_groups-IsSound,
}
use distributed_database.ShardController.Server.Asked.{
  IsProper, IsShared, IsMade, grown_by, IsRepetition, IsRemembered, IsApplied,
}
use distributed_database.ShardController.Server.Groups.{
  lookup-add_groups, lookup-drop_groups, count-drop_groups, num-drop_groups, lookup-missing,
  Has-add_groups, add_groups-Distinct,
}

IsFair-IsShared :
    (tail old next : Config) → old.num ≡ tail.num + 1 → IsFair old next → IsShared tail next
IsFair-IsShared tail old next num fair =
    let back : (g : ℕ) → Has g (keys next.groups) → Has g (keys old.groups) =
      λ g h. subst (λ m. Has g (keys m)) fair.groups h in
    record {
      sound = fair.sound;
      num = fair.num ∙ num;
      none_left = λ g h. fair.none_left g (back g h);
      even = λ g h hg hh. fair.even g h (back g hg) (back h hh);
    }

-- On a list of sound configurations that is not empty, a command that is proper (a join's groups
-- are not numbered 0 and do not repeat, a move's shard is one of the ten) never faults and its
-- loops end. A query makes no configuration. Any other command makes a sound one with the number
-- after the latest: a join has the joining groups with their new servers and the other groups as
-- they were; a leave has none of the groups that leave, which own no shard, and the others as they
-- were; after both the groups have even numbers of shards, and none is left to group 0 if there is
-- a group. A move has the shard where it says, with the other shards and the groups as they were.
pub next_config-IsMade :
    (command : Command) (configs : List Config)
    → 0 < length configs
    → All IsSound configs
    → IsProper command
    → (made : Option Config) × (next_config command configs ≡ ok made) × IsMade command configs made
unfolding next_config
next_config-IsMade (join args) configs nonempty all (no_zero, once) =
    let (tail, at, copied, s) = conf-ok configs nonempty all in
    let grown : Config = record {
      num = tail.num + 1;
      shards = tail.shards;
      groups = add_groups args.servers tail.groups;
    } in
    let (b, runs, fair) = rebalance-IsFair grown (record {
      ten = s.ten;
      distinct = add_groups-Distinct args.servers tail.groups s.distinct;
      no_zero = λ h. elim (Has-add_groups 0 args.servers tail.groups h) [
        | inl new ↦ no_zero new
        | inr old ↦ s.no_zero old
      ];
    }) in
    (
      some b,
      rw (copied, runs) refl,
      (
        tail,
        b,
        at,
        refl,
        (
          IsFair-IsShared tail grown b refl fair,
          λ g. ap (lookup g) fair.groups ∙ lookup-add_groups g args.servers tail.groups once,
        ),
      ),
    )
next_config-IsMade (leave args) configs nonempty all proper =
    let (tail, at, copied, s) = conf-ok configs nonempty all in
    let copy : Config = record { num = tail.num + 1; shards = tail.shards; groups = tail.groups } in
    let copy_sound : IsSound copy = record {
      ten = s.ten;
      distinct = s.distinct;
      no_zero = s.no_zero;
    } in
    let (b, runs, fair) =
      rebalance-IsFair (drop_groups args.gids copy)
        (drop_groups-IsSound args.gids copy copy_sound) in
    (
      some b,
      rw (copied, runs) refl,
      (
        tail,
        b,
        at,
        refl,
        (
          IsFair-IsShared tail (drop_groups args.gids copy) b (num-drop_groups args.gids copy) fair,
          λ g stays. ap (lookup g) fair.groups ∙ (lookup-drop_groups g args.gids copy).1 stays,
          λ g leaves. ap (lookup g) fair.groups ∙ (lookup-drop_groups g args.gids copy).0 leaves,
          λ g leaves nonzero.
              fair.others g nonzero
                (lookup-missing g _ ((lookup-drop_groups g args.gids copy).0 leaves))
              ∙ count-drop_groups g args.gids copy nonzero leaves,
        ),
      ),
    )
next_config-IsMade (move args) configs nonempty all proper =
    let (tail, at, copied, s) = conf-ok configs nonempty all in
    let lt : args.shard < length tail.shards = omega (arith, s.ten, proper) in
    let next : Config = record {
      num = tail.num + 1;
      shards = set tail.shards args.shard args.gid;
      groups = tail.groups;
    } in
    (
      some next,
      rw (copied, lt→ltb args.shard (length tail.shards) lt) refl,
      (
        tail,
        next,
        at,
        refl,
        record {
          sound = record {
            ten = length-set tail.shards args.shard args.gid ∙ s.ten;
            distinct = s.distinct;
            no_zero = s.no_zero;
          };
          num = refl;
          groups = refl;
          moved = get_elem?-set_self tail.shards args.shard args.gid lt;
          others = λ i ne. get_elem?-set_ne tail.shards args.shard i args.gid (λ e. ne (sym e));
        },
      ),
    )
next_config-IsMade (query args) configs nonempty all proper = (none, refl, refl)

All-append :
    (configs : List Config) (c : Config)
    → All IsSound configs
    → IsSound c
    → All IsSound (configs ++ c ∷ [])
All-append [] c all s = (s, tt)
All-append (d ∷ ds) c (first, all) s = (first, All-append ds c all s)

IsMade-IsSound :
    (command : Command) (configs : List Config) (made : Option Config)
    → IsMade command configs made
    → All IsSound configs
    → All IsSound (grown_by made configs)
IsMade-IsSound (join args) configs made (tail, next, at, e, asked) all =
    rw e (All-append configs next all asked.0.sound)
IsMade-IsSound (leave args) configs made (tail, next, at, e, asked) all =
    rw e (All-append configs next all asked.0.sound)
IsMade-IsSound (move args) configs made (tail, next, at, e, asked) all =
    rw e (All-append configs next all asked.sound)
IsMade-IsSound (query args) configs made e all = rw e all

is_duplicate-IsRepetition :
    (command : Command) (s : Store)
    → is_duplicate command (lookup (client_of command) s.dedup) ≡ true
    → IsRepetition command s
unfolding is_duplicate client_of
is_duplicate-IsRepetition (join args) s h = by_last (lookup args.args.client_id s.dedup) refl h
  where
    by_last :
        (found : Option (Option Command))
        → lookup args.args.client_id s.dedup ≡ found
        → is_duplicate (join args) found ≡ true
        → IsRepetition (join args) s
    by_last none e h = cc
    by_last (some none) e h = cc
    by_last (some (some (join dup))) e h = (dup, e, (==_iff _ _).0 h)
    by_last (some (some (leave dup))) e h = cc
    by_last (some (some (move dup))) e h = cc
    by_last (some (some (query dup))) e h = cc
is_duplicate-IsRepetition (leave args) s h = by_last (lookup args.args.client_id s.dedup) refl h
  where
    by_last :
        (found : Option (Option Command))
        → lookup args.args.client_id s.dedup ≡ found
        → is_duplicate (leave args) found ≡ true
        → IsRepetition (leave args) s
    by_last none e h = cc
    by_last (some none) e h = cc
    by_last (some (some (join dup))) e h = cc
    by_last (some (some (leave dup))) e h = (dup, e, (==_iff _ _).0 h)
    by_last (some (some (move dup))) e h = cc
    by_last (some (some (query dup))) e h = cc
is_duplicate-IsRepetition (move args) s h = by_last (lookup args.args.client_id s.dedup) refl h
  where
    by_last :
        (found : Option (Option Command))
        → lookup args.args.client_id s.dedup ≡ found
        → is_duplicate (move args) found ≡ true
        → IsRepetition (move args) s
    by_last none e h = cc
    by_last (some none) e h = cc
    by_last (some (some (join dup))) e h = cc
    by_last (some (some (leave dup))) e h = cc
    by_last (some (some (move dup))) e h = (dup, e, (==_iff _ _).0 h)
    by_last (some (some (query dup))) e h = cc
is_duplicate-IsRepetition (query args) s h = cc

IsRepetition-is_duplicate :
    (command : Command) (s : Store)
    → IsRepetition command s
    → is_duplicate command (lookup (client_of command) s.dedup) ≡ true
unfolding is_duplicate client_of
IsRepetition-is_duplicate (join args) s (last, e, same) = rw e ((==_iff _ _).1 same)
IsRepetition-is_duplicate (leave args) s (last, e, same) = rw e ((==_iff _ _).1 same)
IsRepetition-is_duplicate (move args) s (last, e, same) = rw e ((==_iff _ _).1 same)
IsRepetition-is_duplicate (query args) s h = elim h [ ]

insert-IsRemembered :
    (command : Command) (s : Store) (configs : List Config)
    → IsRemembered command s
        (record { configs = configs; dedup = insert (client_of command) (some command) s.dedup })
unfolding client_of
insert-IsRemembered (join args) s configs = λ other. lookup-insert _ other _ s.dedup
insert-IsRemembered (leave args) s configs = λ other. lookup-insert _ other _ s.dedup
insert-IsRemembered (move args) s configs = λ other. lookup-insert _ other _ s.dedup
insert-IsRemembered (query args) s configs = λ other. lookup-insert _ other _ s.dedup

-- On a store with sound configurations, one at least, a proper command never faults. If the
-- client's last command was of this kind and had this request's number, the store stays; if not,
-- the configurations grow by the one that the command asks for, of a query by none, and all stay
-- sound, and the command is now its client's last, with those of the other clients as they were.
pub apply_command-IsSound :
    (command : Command) (s : Store)
    → 0 < length s.configs
    → All IsSound s.configs
    → IsProper command
    → (IsRepetition command s × (apply_command (some command) s ≡ ok none))
      ⊎ ((¬ IsRepetition command s)
          × ((s' : Store) × (apply_command (some command) s ≡ ok (some s'))
              × IsApplied command s s'))
unfolding apply_command
apply_command-IsSound command s nonempty all proper =
    elim (Bool-cases (is_duplicate command (lookup (client_of command) s.dedup))) [
      | inl repeated ↦ inl (is_duplicate-IsRepetition command s repeated, rw repeated refl)
      | inr new ↦
          let (made, runs, asked) = next_config-IsMade command s.configs nonempty all proper in
          let next : Store = record {
            configs = elim made [ none ↦ s.configs | some c ↦ s.configs ++ c ∷ [] ];
            dedup = insert (client_of command) (some command) s.dedup;
          } in
          inr (
            λ again. ground (arith, IsRepetition-is_duplicate command s again, new),
            (next, rw (new, runs) refl, applied made asked),
          )
    ]
  where
    applied :
        (made : Option Config)
        → IsMade command s.configs made
        → IsApplied command s (record {
          configs = elim made [ none ↦ s.configs | some c ↦ s.configs ++ c ∷ [] ];
          dedup = insert (client_of command) (some command) s.dedup;
        })
    applied none asked = record {
      made = none;
      asked = asked;
      configs = refl;
      sound = IsMade-IsSound command s.configs none asked all;
      remembered = insert-IsRemembered command s s.configs;
    }
    applied (some c) asked = record {
      made = some c;
      asked = asked;
      configs = refl;
      sound = IsMade-IsSound command s.configs (some c) asked all;
      remembered = insert-IsRemembered command s (s.configs ++ c ∷ []);
    }
