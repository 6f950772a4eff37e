-- ===== src/Raft/Vote/Grants.antt =====
-- When RequestVote grants its vote, and what a candidate forgets.
use distributed_database.Prelude.{ℕ, ◌≤◌, ◌<◌, ◌≡◌, ◌↔◌, ◌⊎◌, some, none, true, ok, arith}
use distributed_database.Raft.Types.{Raft, LogEntry, RequestVoteArgs, RequestVoteReply, Codec}
use distributed_database.Raft.Log.{log_tail}
use distributed_database.Raft.Vote.{request_vote}

module _ {ℓ} {C : Type ℓ} where
  -- The candidate's log is no older than one that ends in `tail`: a later last term, or the same
  -- last term and no smaller last index.
  abbrev pub UpToDate : LogEntry C → RequestVoteArgs → Type 0
  UpToDate tail args =
      (tail.term < args.last_log_term)
      ⊎ ((args.last_log_term ≡ tail.term) × (tail.index ≤ args.last_log_index))

module _ {ℓ} {C : Type ℓ} (codec : Codec C) where
  -- A vote is granted exactly when the candidate's term is not old, its log is up to date, and the
  -- server has no other vote in that term; the reply has the server's term from before.
  pub request_vote-granted :
      (now : ℕ) (rf : Raft C) (args : RequestVoteArgs) (x : Raft C × RequestVoteReply)
      (tail : LogEntry C)
      → log_tail rf.log ≡ ok tail
      → request_vote codec now rf args ≡ ok x
      → (x.1.term ≡ rf.term)
        × ((x.1.vote_granted ≡ true) ↔ (
            UpToDate tail args
            × ((rf.term < args.term)
                ⊎ ((args.term ≡ rf.term)
                    × ((rf.voted_for ≡ none) ⊎ (rf.voted_for ≡ some args.candidate_id))))))
  unfolding request_vote
  request_vote-granted now rf args x tail last h =
      (ground arith, (λ g. ground arith, λ g. ground arith))
