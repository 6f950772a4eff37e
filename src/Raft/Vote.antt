-- ===== src/Raft/Vote.antt =====
-- The RequestVote handler of raft.go.
pub mod Grants
use distributed_database.Prelude.{
  ℕ, Bool, true, false, Option, none, some, Go, ok, ◌>>=◌, ltb, leb, ◌==◌, if◌then◌else◌,
}
use distributed_database.Raft.Types.{Raft, RequestVoteArgs, RequestVoteReply, Codec}
use distributed_database.Raft.Log.{log_tail}
use distributed_database.Raft.Node.{become_follower, reset_term, persist}

-- rf.votedFor == -1 || rf.votedFor == candidate
unfoldable pub free_for : Option ℕ → ℕ → Bool
free_for none id = true
free_for (some v) id = v == id

module _ {ℓ} {C : Type ℓ} where
  unfoldable pub is_at_least_up_to_date : Raft C → RequestVoteArgs → Go Bool
  is_at_least_up_to_date rf args = do
    tail ← log_tail rf.log
    ok (
        if args.last_log_term == tail.term
        then leb tail.index args.last_log_index
        else leb tail.term args.last_log_term)

module _ {ℓ} {C : Type ℓ} (codec : Codec C) where
  -- What the handler does once the term is settled. `&&` looks at the log only for a free vote.
  unfoldable pub decide_vote : ℕ → Raft C → RequestVoteArgs → ℕ → Go (Raft C × RequestVoteReply)
  unfolding persist is_at_least_up_to_date free_for
  decide_vote now rf args replied = do
    up_to_date ←
        (if free_for rf.voted_for args.candidate_id
          then is_at_least_up_to_date rf args
          else ok false)
    if up_to_date
        then ok (
          record (persist codec (record rf { voted_for = some args.candidate_id })) {
            last_heartbeat = now;
          },
          record { term = replied; vote_granted = true },
        )
        else ok (rf, record { term = replied; vote_granted = false })

  -- `now` is the time at which the message comes in.
  unfoldable pub request_vote : ℕ → Raft C → RequestVoteArgs → Go (Raft C × RequestVoteReply)
  unfolding decide_vote reset_term become_follower
  request_vote now rf args =
      if ltb args.term rf.term
      then ok (rf, record { term = rf.term; vote_granted = false })
      else decide_vote now
          (if ltb rf.term args.term then reset_term codec args.term (become_follower rf) else rf)
          args rf.term
