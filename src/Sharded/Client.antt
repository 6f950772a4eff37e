-- ===== src/Sharded/Client.antt =====
-- client.go of raft-db-sharded.
pub mod Routing
use distributed_database.Prelude.{
  ℕ, ◌+◌, ◌%◌, Bool, true, false, List, [], ◌∷◌, ◌++◌, Option, none, some, Go, ok, ◌>>=◌, index,
  replicate, if◌then◌else◌, lookup, Text, nat_eq,
}
use distributed_database.ShardController.Types.{n_shards, Config}
use distributed_database.Sharded.Types.{
  Err, ok_err, no_key, wrong_group, wrong_leader, unset, PutAppendReply, GetReply, Clerk,
}

-- The shard of a key's first byte.
unfoldable pub key2shard : Text → ℕ
key2shard [] = 0
key2shard (byte ∷ bytes) = byte % n_shards

unfoldable pub make_clerk : Clerk
make_clerk = record { config = record { num = 0; shards = replicate n_shards 0; groups = [] } }

-- What a call's answer does to the loop over the group's servers: it ends the request with a
-- result, leaves the group, or goes on to the next server.
pub data Verdict {ℓ} (R : Type ℓ) : Type ℓ where
  finished : R → Verdict R
  leave_group : Verdict R
  next_server : Verdict R

unfoldable pub judge_get : Option GetReply → Verdict Text
judge_get none = next_server
judge_get (some reply) = elim reply.err [
  | ok_err ↦ finished reply.value
  | no_key ↦ finished reply.value
  | wrong_group ↦ leave_group
  | wrong_leader ↦ next_server
  | unset ↦ next_server
]

unfoldable pub judge_put : Option PutAppendReply → Verdict (Unit {0})
judge_put none = next_server
judge_put (some reply) = elim reply.err [
  | ok_err ↦ finished tt
  | wrong_group ↦ leave_group
  | no_key ↦ next_server
  | wrong_leader ↦ next_server
  | unset ↦ next_server
]

-- The servers that were called, in order, and the result if there is one.
pub record Tried {ℓ} (R : Type ℓ) : Type ℓ where
  pub called : List Text
  pub result : Option R

-- A call to `server`, and what the rest of the loop would do.
unfoldable pub after {κ} : {R : Type κ} → Verdict R → Text → Tried R → Tried R
after (finished r) server rest = record { called = server ∷ []; result = some r }
after leave_group server rest = record { called = server ∷ []; result = none }
after next_server server rest = record { called = server ∷ rest.called; result = rest.result }

module _ {ℓ κ} {A : Type ℓ} {R : Type κ} (judge : A → Verdict R) where
  -- The loop over the servers of a group, from the one at place `si` on. `answer_of` is what each
  -- call is answered with.
  unfoldable pub try_group : (ℕ → A) → ℕ → List Text → Tried R
  try_group answer_of si [] = record { called = []; result = none }
  try_group answer_of si (server ∷ servers) =
      after (judge (answer_of si)) server (try_group answer_of (si + 1) servers)

  -- One pass of the outer loop, up to its sleep.
  unfoldable pub try_config : (ℕ → A) → Text → Config → Go (Tried R)
  unfolding try_group
  try_config answer_of key config = do
    gid ← index config.shards (key2shard key)
    elim (lookup gid config.groups) [
      | none ↦ ok (record { called = []; result = none })
      | some servers ↦ ok (try_group answer_of 0 servers)
    ]

  -- The outer loop. A pass has the answers of its calls, and the configuration that Query gives at
  -- its end. The result is the clerk, with the passes' calls.
  unfoldable pub request :
      Text → List ((ℕ → A) × Config) → Clerk → Go (Clerk × List (List Text) × Option R)
  unfolding try_config
  request key [] ck = ok (ck, [], none)
  request key ((answer_of, next) ∷ passes) ck = do
    tried ← try_config answer_of key ck.config
    elim tried.result [
      | some r ↦ ok (ck, tried.called ∷ [], some r)
      | none ↦ (do
        (ck', calls, result) ← request key passes (record { config = next })
        ok (ck', tried.called ∷ calls, result))
    ]

-- Get and PutAppend.
unfoldable pub client_get :
    Text
    → List ((ℕ → Option GetReply) × Config)
    → Clerk
    → Go (Clerk × List (List Text) × Option Text)
unfolding request judge_get
client_get = request judge_get

unfoldable pub client_put_append :
    Text
    → List ((ℕ → Option PutAppendReply) × Config)
    → Clerk
    → Go (Clerk × List (List Text) × Option (Unit {0}))
unfolding request judge_put
client_put_append = request judge_put
