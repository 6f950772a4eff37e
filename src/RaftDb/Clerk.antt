-- ===== src/RaftDb/Clerk.antt =====
-- client.go of raft-db: the loop that sends one request until a server carries it out. The answers
-- that the calls get, `none` for a call that fails, are a list: one for each round.
pub mod Rounds
use distributed_database.Prelude.{
  ℕ, ◌+◌, ◌%◌, Bool, true, false, List, [], ◌∷◌, Option, none, some, Go, ok, panic, ◌>>=◌, ltb,
  ◌==◌, if◌then◌else◌, Text, text_eq,
}
use distributed_database.RaftDb.Types.{
  Err, ok_err, no_key, wrong_leader, timeout, unset, Args, PutOrAppend, put_op, append_op,
  PutAppendArgs, GetArgs,
}

pub record Clerk : Type 0 where
  -- len(ck.servers)
  pub servers_len : ℕ
  pub cid : ℕ
  pub leader : ℕ

unfoldable pub make_clerk : ℕ → ℕ → Clerk
make_clerk servers_len cid = record { servers_len = servers_len; cid = cid; leader = 0 }

-- A remainder by zero faults.
unfoldable pub next_leader : ℕ → Clerk → Go (Clerk × ℕ)
next_leader current ck =
    if ck.servers_len == 0
    then panic
    else (let next = (current + 1) % ck.servers_len in ok (record ck { leader = next }, next))

-- What the loop makes of an answer: it ends, calls the same server again, or the next one.
pub data Verdict : Type 0 where
  finished same_server next_server : Verdict

unfoldable pub judge : Option Err → Verdict
judge none = next_server
judge (some ok_err) = finished
judge (some timeout) = same_server
judge (some no_key) = next_server
judge (some wrong_leader) = next_server
judge (some unset) = next_server

-- How a call went on: the servers that were called, in order, the clerk, and whether the loop ended.
pub record Called : Type 0 where
  pub servers : List ℕ
  pub clerk : Clerk
  pub ended : Bool

abbrev called_first : ℕ → Called → Called
called_first server c = record c { servers = server ∷ c.servers }

-- The loop of Get and PutAppend, from server `leader` on.
unfoldable pub call_until_ok : List (Option Err) → ℕ → Clerk → Go Called
unfolding judge next_leader
call_until_ok [] leader ck = ok (record { servers = []; clerk = ck; ended = false })
call_until_ok (answer ∷ answers) leader ck =
    if ltb leader ck.servers_len
    then elim (judge answer) [
      | finished ↦ ok (record { servers = leader ∷ []; clerk = ck; ended = true })
      | same_server ↦ (do rest ← call_until_ok answers leader ck; ok (called_first leader rest))
      | next_server ↦ (do
        (ck', next) ← next_leader leader ck
        rest ← call_until_ok answers next ck'
        ok (called_first leader rest))
    ]
    else panic

-- args(), with the random number of the request.
unfoldable pub request_args : Clerk → ℕ → Args
request_args ck random = record { client_id = ck.cid; request_id = random }

-- The string "Put".
abbrev pub put_text : Text
put_text = 80 ∷ 117 ∷ 116 ∷ []

-- What PutAppend sends; the string `op` is "Put", or anything else for an append.
unfoldable pub put_append_args : Clerk → ℕ → Text → Text → Text → PutAppendArgs
unfolding request_args
put_append_args ck random key value op = record {
  kind = if text_eq.beq op put_text then put_op else append_op;
  key = key;
  value = value;
  args = request_args ck random;
}

-- Get and PutAppend: what they send, and how their calls go on. Put and Append are PutAppend.
unfoldable pub clerk_get : Clerk → Text → List (Option Err) → Go (GetArgs × Called)
unfolding call_until_ok
clerk_get ck key answers = do
  called ← call_until_ok answers ck.leader ck
  ok (record { key = key }, called)

unfoldable pub clerk_put_append :
    Clerk → ℕ → Text → Text → Text → List (Option Err) → Go (PutAppendArgs × Called)
unfolding call_until_ok put_append_args
clerk_put_append ck random key value op answers = do
  called ← call_until_ok answers ck.leader ck
  ok (put_append_args ck random key value op, called)
