-- ===== src/Sharded/Client/Routing.antt =====
-- Where the client sends a request.
use distributed_database.Prelude.{
  ℕ, ◌+◌, ◌<◌, ◌≡◌, refl, ap, inl, inr, List, [], ◌∷◌, ◌++◌, Option, none, some, ok, length,
  get_elem?, get_elem?-lt, arith, lookup, nat_eq, Text, All, Option-cases,
}
use distributed_database.ShardController.Types.{n_shards, Config}
use distributed_database.Sharded.Types.{Clerk}
use distributed_database.Sharded.Client.{
  key2shard, Verdict, finished, leave_group, next_server, Tried, try_group, after, try_config,
  request,
}

-- Every key has one of the shards.
key2shard-lt : (key : Text) → key2shard key < n_shards
unfolding key2shard
key2shard-lt [] = omega arith
key2shard-lt (byte ∷ bytes) = omega arith

-- A configuration has all shards.
abbrev pub IsComplete : Config → Type 0
IsComplete c = length c.shards ≡ n_shards

-- The servers of the group that a configuration gives the key's shard to.
abbrev pub owners : Text → Config → List Text
owners key c = elim (get_elem? c.shards (key2shard key)) [
  | none ↦ []
  | some gid ↦ elim (lookup gid c.groups) [ none ↦ [] | some servers ↦ servers ]
]

-- Each pass calls the first few servers of the group that its configuration gives the key to.
abbrev pub Routed : Text → Config → List Config → List (List Text) → Type 0
Routed key c later [] = Unit
Routed key c [] (calls ∷ more) = (rest : List Text) × (owners key c ≡ calls ++ rest)
Routed key c (next ∷ later) (calls ∷ more) =
    ((rest : List Text) × (owners key c ≡ calls ++ rest)) × Routed key next later more

module _ {ℓ κ} {A : Type ℓ} {R : Type κ} (judge : A → Verdict R) where
  abbrev pub configs : List ((ℕ → A) × Config) → List Config
  configs [] = []
  configs ((answer_of, c) ∷ passes) = c ∷ configs passes

  after-first :
      (v : Verdict R) (server : Text) (servers rest : List Text) (tried : Tried R)
      → servers ≡ tried.called ++ rest
      → (left : List Text) × (server ∷ servers ≡ (after v server tried).called ++ left)
  unfolding after
  after-first (finished r) server servers rest tried same = (servers, refl)
  after-first leave_group server servers rest tried same = (servers, refl)
  after-first next_server server servers rest tried same = (rest, ap (λ xs. server ∷ xs) same)

  try_group-first :
      (answer_of : ℕ → A) (si : ℕ) (servers : List Text)
      → (rest : List Text) × (servers ≡ (try_group judge answer_of si servers).called ++ rest)
  unfolding try_group
  try_group-first answer_of si [] = ([], refl)
  try_group-first answer_of si (server ∷ servers) =
      let (rest, same) = try_group-first answer_of (si + 1) servers in
      after-first (judge (answer_of si)) server servers rest
        (try_group judge answer_of (si + 1) servers) same

  try_config-owners :
      (answer_of : ℕ → A) (key : Text) (c : Config)
      → IsComplete c
      → (tried : Tried R) × (try_config judge answer_of key c ≡ ok tried)
        × ((rest : List Text) × (owners key c ≡ tried.called ++ rest))
  unfolding try_config
  try_config-owners answer_of key c full =
      let (gid, at) =
        get_elem?-lt c.shards (key2shard key) (omega (arith, key2shard-lt key, full)) in
      elim (Option-cases (lookup gid c.groups)) [
        | inl missing ↦ (record { called = []; result = none }, ground arith, ([], ground arith))
        | inr (servers, found) ↦
            let (rest, same) = try_group-first answer_of 0 servers in
            (try_group judge answer_of 0 servers, ground arith, (rest, ground arith))
      ]

  -- The client never faults on configurations with all shards, and each of its passes calls only
  -- servers of the group that its configuration of that moment gives the key's shard to: the first
  -- few of them, in order.
  pub request-Routed :
      (key : Text) (passes : List ((ℕ → A) × Config)) (ck : Clerk)
      → IsComplete ck.config
      → All IsComplete (configs passes)
      → (ck' : Clerk) × (calls : List (List Text)) × (result : Option R) × (request judge key passes
            ck
          ≡ ok (ck', calls, result))
        × Routed key ck.config (configs passes) calls
  unfolding request
  request-Routed key [] ck full all = (ck, [], none, refl, tt)
  request-Routed key ((answer_of, next) ∷ passes) ck full all =
      let (tried, runs, first) = try_config-owners answer_of key ck.config full in
      elim (Option-cases tried.result) [
        | inr (r, ended) ↦ (ck, tried.called ∷ [], some r, ground (arith, runs), (first, tt))
        | inl going ↦
            let (ck', calls, result, later, routed) =
              request-Routed key passes (record { config = next }) all.0 all.1 in
            (ck', tried.called ∷ calls, result, ground (arith, runs, later), (first, routed))
      ]
