-- ===== src/ShardController/Clerk.antt =====
-- client.go of the shard controller: each request goes to one server after the other, over and over,
-- until one of them takes it. The answers that the calls get, `none` for a call that fails, are a
-- list: one for each call.
pub mod Rounds
use distributed_database.Prelude.{
  ℕ, ◌+◌, Bool, true, false, not, ◌&&◌, List, [], ◌∷◌, Option, none, some, ◌==◌, if◌then◌else◌,
  Text,
}
use distributed_database.ShardController.Types.{
  Config, ok_err, Args, JoinArgs, LeaveArgs, MoveArgs, QueryArgs, Reply, QueryReply,
}
use distributed_database.ShardController.Server.{is_ok}

pub record Clerk : Type 0 where
  -- len(ck.servers)
  pub servers_len : ℕ
  pub cid : ℕ
  -- never used
  pub leader : ℕ

unfoldable pub make_clerk : ℕ → ℕ → Clerk
make_clerk servers_len cid = record { servers_len = servers_len; cid = cid; leader = 0 }

-- args(), with the random number of the request.
unfoldable pub clerk_args : Clerk → ℕ → Args
clerk_args ck random = record { client_id = ck.cid; request_id = random }

unfoldable pub join_args : Clerk → ℕ → List (ℕ × List Text) → JoinArgs
unfolding clerk_args
join_args ck random servers = record { servers = servers; args = clerk_args ck random }

unfoldable pub leave_args : Clerk → ℕ → List ℕ → LeaveArgs
unfolding clerk_args
leave_args ck random gids = record { gids = gids; args = clerk_args ck random }

unfoldable pub move_args : Clerk → ℕ → ℕ → ℕ → MoveArgs
unfolding clerk_args
move_args ck random shard gid = record { shard = shard; gid = gid; args = clerk_args ck random }

-- ok && reply.WrongLeader == false && reply.Err == OK
unfoldable pub taken : Reply → Bool
unfolding is_ok
taken reply = not reply.wrong_leader && is_ok reply.err

unfoldable pub query_taken : QueryReply → Bool
unfolding is_ok
query_taken reply = not reply.wrong_leader && is_ok reply.err

-- The servers that were called, in order, and the reply that ended the loops.
pub record Asked {ℓ} (R : Type ℓ) : Type ℓ where
  pub servers : List ℕ
  pub reply : Option R

module _ {ℓ} {R : Type ℓ} (is_taken : R → Bool) where
  abbrev pub accepted : Option R → Bool
  accepted none = false
  accepted (some reply) = is_taken reply

  abbrev pub asked_first : ℕ → Asked R → Asked R
  asked_first server a = record { servers = server ∷ a.servers; reply = a.reply }

  -- The two loops, from the server `server` on: after the last one they start again with the first.
  unfoldable pub ask : ℕ → List (Option R) → ℕ → Asked R
  ask n [] server = record { servers = []; reply = none }
  ask n (answer ∷ answers) server =
      let rest = ask n answers (if server + 1 == n then 0 else server + 1) in
      if accepted answer
      then record { servers = server ∷ []; reply = answer }
      else asked_first server rest

-- Join, Leave and Move. With no servers the loops never call one.
unfoldable pub ask_until_taken : Clerk → List (Option Reply) → Asked Reply
ask_until_taken ck answers =
    if ck.servers_len == 0
    then record { servers = []; reply = none }
    else ask taken ck.servers_len answers 0

-- Query's result is the configuration of the reply.
unfoldable pub query_until_taken : Clerk → List (Option QueryReply) → Option Config
query_until_taken ck answers =
    if ck.servers_len == 0 then none else elim (ask query_taken ck.servers_len answers 0).reply [
      | none ↦ none
      | some reply ↦ some reply.config
    ]
