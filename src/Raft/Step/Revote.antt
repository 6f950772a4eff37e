-- ===== src/Raft/Step/Revote.antt =====
-- A candidate that meets the leader of its own term forgets that it has voted.
use distributed_database.Prelude.{
  ℕ, ◌≡◌, ◌∙◌, inl, inr, some, none, true, ok, arith, >>=-eq-ok, ge→ltb,
}
use distributed_database.Raft.Types.{
  Raft, LogEntry, candidate, RequestVoteArgs, RequestVoteReply, AppendEntriesArgs,
  AppendEntriesReply, Codec,
}
use distributed_database.Raft.Log.{log_tail}
use distributed_database.Raft.Vote.{request_vote}
use distributed_database.Raft.Vote.Grants.{UpToDate, request_vote-granted}
use distributed_database.Raft.Append.{append_entries, check_prev}
use distributed_database.Raft.Step.Handlers

module _ {ℓ} {C : Type ℓ} (codec : Codec C) where
  forgotten :
      (now : ℕ) (rf : Raft C) (args : AppendEntriesArgs C) (x : Raft C × AppendEntriesReply)
      → rf.state ≡ candidate
      → args.term ≡ rf.term
      → append_entries codec now rf args ≡ ok x
      → (x.0.voted_for ≡ none) × (x.0.term ≡ rf.term)
  unfolding append_entries
  forgotten now rf args x stands same h =
      let (refused, _, last) =
        >>=-eq-ok (check_prev _ args rf.term) _
          (rw (ge→ltb args.term rf.term (omega arith)) at h) in
      let q = Handlers.accept_entries-Quiet codec _ args rf.term refused x last in
      (q.same_vote ∙ (ground arith), q.same_term ∙ (ground arith))

  -- A candidate that takes in a message of the leader of its own term then grants a vote in that
  -- same term to any server whose log is up to date, though it has voted for itself in it.
  pub candidate_votes_again :
      (now now' : ℕ) (rf : Raft C) (args : AppendEntriesArgs C) (second : RequestVoteArgs)
      (x : Raft C × AppendEntriesReply) (y : Raft C × RequestVoteReply) (tail : LogEntry C)
      → rf.state ≡ candidate
      → rf.voted_for ≡ some rf.me
      → args.term ≡ rf.term
      → append_entries codec now rf args ≡ ok x
      → second.term ≡ rf.term
      → log_tail x.0.log ≡ ok tail
      → UpToDate tail second
      → request_vote codec now' x.0 second ≡ ok y
      → (y.1.vote_granted ≡ true) × (x.0.term ≡ rf.term)
  candidate_votes_again now now' rf args second x y tail stands voted same h same' last fresh asks =
      let (free, term) = forgotten now rf args x stands same h in
      (
        (request_vote-granted codec now' x.0 second y tail last asks).1.1
            (fresh, inr (omega arith, inl free)),
        term,
      )
