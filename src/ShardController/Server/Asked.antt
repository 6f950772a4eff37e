-- ===== src/ShardController/Server/Asked.antt =====
-- What the commands of the shard controller ask for, told without the code that does it.
use distributed_database.Prelude.{
  ℕ, ◌+◌, ◌-◌, ◌≤◌, ◌<◌, ◌≡◌, ◌≢◌, List, [], ◌∷◌, ◌++◌, Option, none, some, length, get_elem?, All,
  ◌==◌, if◌then◌else◌, lookup, nat_eq, Has, Distinct,
}
use distributed_database.ShardController.Types.{
  n_shards, Config, JoinArgs, LeaveArgs, MoveArgs, Command, join, leave, move, query, Store,
}
use distributed_database.ShardController.Rebalance.{keys}
use distributed_database.ShardController.Rebalance.Tables.{count}
use distributed_database.ShardController.Server.Groups.{over}
use distributed_database.ShardController.Server.Fair.{IsSound}

-- A group that joins is not numbered 0 and joins once, and a shard that moves is one of the ten.
abbrev pub IsProper : Command → Type 0
IsProper (join args) = (¬ Has 0 (keys args.servers)) × Distinct (keys args.servers)
IsProper (leave args) = Unit
IsProper (move args) = args.shard < n_shards
IsProper (query args) = Unit

-- A configuration after another one, its shards shared evenly among the groups that it has.
pub record IsShared (tail next : Config) : Type 0 where
  pub sound : IsSound next
  pub num : next.num ≡ tail.num + 1
  pub none_left : (g : ℕ) → Has g (keys next.groups) → count 0 next.shards ≡ 0
  pub even :
      (g h : ℕ)
      → Has g (keys next.groups)
      → Has h (keys next.groups)
      → count g next.shards ≤ count h next.shards + 1

-- A configuration after another one, which differs in the group of one shard.
pub record IsMoved (shard gid : ℕ) (tail next : Config) : Type 0 where
  pub sound : IsSound next
  pub num : next.num ≡ tail.num + 1
  pub groups : next.groups ≡ tail.groups
  pub moved : get_elem? next.shards shard ≡ some gid
  pub others : (i : ℕ) → i ≢ shard → get_elem? next.shards i ≡ get_elem? tail.shards i

-- What each command asks for, of the latest configuration and the next one. A join overwrites the
-- servers of a group that is there; a leave takes the groups out, which then own no shard.
abbrev pub IsAsked : Command → (tail next : Config) → Type 0
IsAsked (join args) tail next =
    IsShared tail next
    × ((g : ℕ) → lookup g next.groups ≡ over (lookup g args.servers) (lookup g tail.groups))
IsAsked (leave args) tail next =
    IsShared tail next
    × ((g : ℕ) → ¬ Has g args.gids → lookup g next.groups ≡ lookup g tail.groups)
    × ((g : ℕ) → Has g args.gids → lookup g next.groups ≡ none)
    × ((g : ℕ) → Has g args.gids → g ≢ 0 → count g next.shards ≡ 0)
IsAsked (move args) tail next = IsMoved args.shard args.gid tail next
IsAsked (query args) tail next = Unit

-- A query makes no configuration, and any other command one that it asks for.
abbrev pub IsMade : Command → List Config → Option Config → Type 0
IsMade (query args) configs made = made ≡ none
IsMade command configs made =
    (tail next : Config) × (get_elem? configs (length configs - 1) ≡ some tail)
    × (made ≡ some next)
    × IsAsked command tail next

-- The list of configurations after a command made none, or one.
abbrev pub grown_by : Option Config → List Config → List Config
grown_by none configs = configs
grown_by (some next) configs = configs ++ next ∷ []

-- The client's last command was of this kind and had this request's number.
abbrev pub IsRepetition : Command → Store → Type 0
IsRepetition (join args) s =
    (last : JoinArgs) × (lookup args.args.client_id s.dedup ≡ some (some (join last)))
    × (last.args.request_id ≡ args.args.request_id)
IsRepetition (leave args) s =
    (last : LeaveArgs) × (lookup args.args.client_id s.dedup ≡ some (some (leave last)))
    × (last.args.request_id ≡ args.args.request_id)
IsRepetition (move args) s =
    (last : MoveArgs) × (lookup args.args.client_id s.dedup ≡ some (some (move last)))
    × (last.args.request_id ≡ args.args.request_id)
IsRepetition (query args) s = ⊥

-- The store after a new command: the command is its client's last one, a query that of client 0.
abbrev pub IsLastOf : (client : ℕ) → Command → (old new : Store) → Type 0
IsLastOf client command old new =
    (other : ℕ)
    → lookup other new.dedup
      ≡ (if client == other then some (some command) else lookup other old.dedup)

abbrev pub IsRemembered : Command → (old new : Store) → Type 0
IsRemembered (join args) = IsLastOf args.args.client_id (join args)
IsRemembered (leave args) = IsLastOf args.args.client_id (leave args)
IsRemembered (move args) = IsLastOf args.args.client_id (move args)
IsRemembered (query args) = IsLastOf 0 (query args)

-- The store after a command that is no repetition.
pub record IsApplied (command : Command) (old new : Store) : Type 0 where
  pub made : Option Config
  pub asked : IsMade command old.configs made
  pub configs : new.configs ≡ grown_by made old.configs
  pub sound : All IsSound new.configs
  pub remembered : IsRemembered command old new
