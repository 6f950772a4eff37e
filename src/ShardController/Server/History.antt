-- ===== src/ShardController/Server/History.antt =====
-- The list of configurations: each stands at the place of its number.
use distributed_database.Prelude.{
  ℕ, ◌+◌, ◌-◌, ◌≤◌, ◌<◌, ◌≡◌, refl, ap, sym, ◌∙◌, ◌⊎◌, inl, inr, List, [], ◌∷◌, ◌++◌, Option, none,
  some, false, ok, deref, length, get_elem?, get_elem?-lt, lt_of_get_elem?, get_elem?-append_left,
  get_elem?-append_right, length-append, arith, ltb, lookup, nat_eq, >>=-eq-ok, Bool-cases,
}
use distributed_database.Raft.Types.{ApplyMsg}
use distributed_database.ShardController.Types.{
  Config, ok_err, Command, join, leave, move, query, QueryArgs, Store, ShardCtrler,
}
use distributed_database.ShardController.Rebalance.{rebalance}
use distributed_database.ShardController.Server.{
  configs_tail, conf, add_groups, drop_groups, next_config, is_duplicate, client_of, apply_command,
  query_num, notify, end_command, is_ok, reply_to_query,
}

-- There is a configuration, and the one at place `i` has number `i`.
pub record IsHistory (configs : List Config) : Type 0 where
  pub nonempty : 0 < length configs
  pub numbered : (i : ℕ) (c : Config) → get_elem? configs i ≡ some c → c.num ≡ i

configs_tail_lem :
    (configs : List Config)
    → IsHistory configs
    → (tail : Config) × (configs_tail configs ≡ ok tail) × (tail.num + 1 ≡ length configs)
unfolding configs_tail
configs_tail_lem [] h = absurd (omega (arith, h.nonempty))
configs_tail_lem (c ∷ cs) h =
    let (tail, at) = get_elem?-lt (c ∷ cs) (length cs) (omega arith) in
    (tail, rw at, omega (arith, h.numbered (length cs) tail at))

rebalance-num : (c b : Config) → rebalance c ≡ some b → b.num ≡ c.num
unfolding rebalance
rebalance-num c b h = ground arith

drop_groups-num : (ks : List ℕ) (c : Config) → (drop_groups ks c).num ≡ c.num
unfolding drop_groups
drop_groups-num [] c = refl
drop_groups-num (k ∷ ks) c = drop_groups-num ks _

conf-num :
    (configs : List Config) (c : Config)
    → IsHistory configs
    → conf configs ≡ ok c
    → c.num ≡ length configs
conf-num configs c h e =
    let (tail, at, count) = configs_tail_lem configs h in
    let start : c.num ≡ tail.num + 1 = unfold conf in ground arith in omega arith

deref-some : (found : Option Config) (c : Config) → deref found ≡ ok c → found ≡ some c
deref-some none c h = cc
deref-some (some d) c h = cc

rebalanced :
    (from balanced c : Config)
    → deref (rebalance from) ≡ ok balanced
    → ok (some balanced) ≡ ok (some c)
    → c.num ≡ from.num
rebalanced from balanced c runs e =
    let same : balanced ≡ c = cc in
    ap (λ (d : Config). d.num) (sym same)
    ∙ rebalance-num from balanced (deref-some (rebalance from) balanced runs)

next_config-num :
    (command : Command) (configs : List Config) (c : Config)
    → IsHistory configs
    → next_config command configs ≡ ok (some c)
    → c.num ≡ length configs
unfolding next_config
next_config-num (join args) configs c h e =
    let (start, copied, e') = >>=-eq-ok (conf configs) _ e in
    let grown : Config = record start { groups = add_groups args.servers start.groups } in
    let (balanced, runs, e'') = >>=-eq-ok (deref (rebalance grown)) _ e' in
    omega (arith, conf-num configs start h copied, rebalanced grown balanced c runs e'')
next_config-num (leave args) configs c h e =
    let (start, copied, e') = >>=-eq-ok (conf configs) _ e in
    let (balanced, runs, e'') = >>=-eq-ok (deref (rebalance (drop_groups args.gids start))) _ e' in
    omega (
      arith,
      conf-num configs start h copied,
      rebalanced (drop_groups args.gids start) balanced c runs e'',
      drop_groups-num args.gids start,
    )
next_config-num (move args) configs c h e =
    let (start, copied, e') = >>=-eq-ok (conf configs) _ e in
    ground (arith, conf-num configs start h copied)
next_config-num (query args) configs c h e = cc

IsHistory-append :
    (configs : List Config) (c : Config)
    → IsHistory configs
    → c.num ≡ length configs
    → IsHistory (configs ++ c ∷ [])
IsHistory-append configs c h same = record {
  nonempty = omega (arith, length-append configs (c ∷ []));
  numbered = λ i d at. elim (Bool-cases (ltb i (length configs))) [
    | inl old ↦ h.numbered i d (sym (get_elem?-append_left configs (c ∷ []) i (ground arith)) ∙ at)
    | inr new ↦ last i d at (ground arith)
  ];
}
  where
    last :
        (i : ℕ) (d : Config)
        → get_elem? (configs ++ c ∷ []) i ≡ some d
        → length configs ≤ i
        → d.num ≡ i
    last i d at from =
        let at' : get_elem? (c ∷ []) (i - length configs) ≡ some d =
          sym (get_elem?-append_right configs (c ∷ []) i from) ∙ at in
        let place : i - length configs ≡ 0 = omega (arith, lt_of_get_elem? (c ∷ []) _ d at') in
        let here : c ≡ d = cc in ap (λ (b : Config). b.num) (sym here) ∙ omega arith

-- What a command does to the configurations.
abbrev pub Grows : List Config → List Config → Type 0
Grows old new = (new ≡ old) ⊎ ((c : Config) × (new ≡ old ++ c ∷ []) × (c.num ≡ length old))

made-Grows :
    (made : Option Config) (s s' : Store) (d : List (ℕ × Option Command))
    → ok (
        some (record {
          configs = elim made [ none ↦ s.configs | some next ↦ s.configs ++ next ∷ [] ];
          dedup = d;
        }))
      ≡ ok (some s')
    → ((c : Config) → made ≡ some c → c.num ≡ length s.configs)
    → Grows s.configs s'.configs
made-Grows none s s' d e numbered = inl (ground arith)
made-Grows (some c) s s' d e numbered = inr (c, ground arith, numbered c refl)

apply_command-Grows :
    (command : Option Command) (s s' : Store)
    → IsHistory s.configs
    → apply_command command s ≡ ok (some s')
    → Grows s.configs s'.configs
unfolding apply_command
apply_command-Grows none s s' h e = inl (ground arith)
apply_command-Grows (some c) s s' h e =
    elim (Bool-cases (is_duplicate c (lookup (client_of c) s.dedup))) [
      | inl repeated ↦ let wrong : ok none ≡ ok (some s') = rw repeated at e in cc
      | inr new ↦
          let (made, runs, e') = >>=-eq-ok (next_config c s.configs) _ (rw new at e) in
          made-Grows made s s' _ e'
            (λ next same. next_config-num c s.configs next h (runs ∙ ap ok same))
    ]

-- A command that is applied and is no repetition leaves the configurations as they are, or puts one
-- behind them; each stays at the place of its number.
apply_command-IsHistory :
    (command : Option Command) (s s' : Store)
    → IsHistory s.configs
    → apply_command command s ≡ ok (some s')
    → IsHistory s'.configs × Grows s.configs s'.configs
apply_command-IsHistory command s s' h e =
    let g = apply_command-Grows command s s' h e in
    (
      elim g [
        | inl same ↦ rw same h
        | inr (c, more, num) ↦ rw more (IsHistory-append s.configs c h num)
      ],
      g,
    )

query_num-lt :
    (asked : Option ℕ) (latest bound : ℕ) → latest < bound → query_num asked latest < bound
unfolding query_num
query_num-lt none latest bound h = h
query_num-lt (some n) latest bound h = ground arith

-- The configuration that a query asks for: the one at the place of its number, or the last one if
-- it asks for a negative or a later number.
abbrev pub IsAnswer : Option ℕ → List Config → Config → Type 0
IsAnswer none configs config = get_elem? configs (length configs - 1) ≡ some config
IsAnswer (some n) configs config =
    ((n < length configs) × (get_elem? configs n ≡ some config) × (config.num ≡ n))
    ⊎ ((length configs ≤ n) × (get_elem? configs (length configs - 1) ≡ some config))

query_num-IsAnswer :
    (asked : Option ℕ) (latest : ℕ) (configs : List Config) (config : Config)
    → latest + 1 ≡ length configs
    → get_elem? configs (query_num asked latest) ≡ some config
    → config.num ≡ query_num asked latest
    → IsAnswer asked configs config
unfolding query_num
query_num-IsAnswer none latest configs config last at place =
    ap (get_elem? configs) (omega (arith, last)) ∙ at
query_num-IsAnswer (some n) latest configs config last at place = elim (Bool-cases (ltb latest n)) [
  | inl later ↦
      inr
        (ground (arith, later, last), ap (get_elem? configs) (omega (arith, last)) ∙ rw later at at)
  | inr there ↦ inl (ground (arith, there, last), rw there at at, rw there at place)
]

-- A query that is applied on the leader, where each configuration stands at the place of its number,
-- never faults, and is answered with the configuration whose number it asks for, or with the last
-- one if it asks for a negative or a later number; the answer is the same if more configurations
-- come in before the handler wakes up.
pub query-answered :
    (v : ApplyMsg Command) (s later : ShardCtrler) (q : QueryArgs) (more : List Config)
    → IsHistory s.configs
    → v.command ≡ some (query q)
    → later.configs ≡ s.configs ++ more
    → (config : Config) × (notify v s
        ≡ ok (record { chan = lookup v.command_index s.done_chans; num = some config.num }))
      × (reply_to_query (end_command (some (some config.num))) later
          ≡ ok (record { wrong_leader = false; err = ok_err; config = config }))
      × IsAnswer q.num s.configs config
unfolding notify reply_to_query end_command is_ok
query-answered v s later q more h asked grown =
    let (tail, is_tail, count) = configs_tail_lem s.configs h in
    let k = query_num q.num tail.num in
    let within : k < length s.configs =
      query_num-lt q.num tail.num (length s.configs) (omega arith) in
    let (config, at) = get_elem?-lt s.configs k within in
    let place : config.num ≡ k = h.numbered k config at in
    let there : get_elem? (s.configs ++ more) k ≡ some config =
      get_elem?-append_left s.configs more k within ∙ at in
    (
      config,
      rw (asked, is_tail, place),
      rw (place, grown, there),
      query_num-IsAnswer q.num tail.num s.configs config count at place,
    )
