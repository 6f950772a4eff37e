-- ===== src/Raft/Replica/Stale.antt =====
-- What CondInstallSnapshot leaves behind the snapshot, and what RequestVote makes of it.
use distributed_database.Prelude.{
  ℕ, ◌+◌, ◌-◌, ◌≤◌, ◌<◌, ◌≡◌, refl, ap, sym, subst, ◌∙◌, List, some, none, true, false, Bool, ok,
  length, get_elem?, arith, leb, ◌==◌, ge→ltb, lt→ltb, ne→==,
}
use distributed_database.Raft.Types.{Raft, LogEntry, RequestVoteArgs, RequestVoteReply, Codec}
use distributed_database.Raft.Log.{log_tail}
use distributed_database.Raft.Log.Contiguous.{IsLog, log_tail-index}
use distributed_database.Raft.Vote.{decide_vote, request_vote}
use distributed_database.Raft.Node.{persist, reset_term, become_follower}
use distributed_database.Raft.Snapshots.{cond_install_snapshot, save_with_snapshot}
use distributed_database.Raft.Replica.{IsReplica}
use distributed_database.Raft.Replica.Snapshots.{IsCut, installed_log-within}

module _ {ℓ} {C : Type ℓ} where
  -- What is left of a log ends in the log's last entry, if more than the head is left.
  IsCut-log_tail :
      (n i : ℕ) (log cut : List (LogEntry C)) (tail : LogEntry C)
      → IsLog n log
      → IsCut (i - n) i log cut
      → n ≤ i
      → i + 1 < n + length log
      → log_tail log ≡ ok tail
      → log_tail cut ≡ ok tail
  IsCut-log_tail n i log cut tail l c from inside last =
      let (t, is_t, at, _) = log_tail-index i cut c.is_log in
      let (s, is_s, at', _) = log_tail-index n log l in
      let place : (i - n) + (length cut - 1) ≡ length log - 1 =
        omega (arith, c.long, c.is_log.nonempty) in
      let same : some t ≡ some s =
        sym at ∙ c.rest (length cut - 1) (omega (arith, c.long)) ∙ ap (get_elem? log) place ∙ at' in
      is_t ∙ (let e : ok t ≡ ok s = ground arith in e) ∙ sym is_s ∙ last

module _ {ℓ} {C : Type ℓ} (codec : Codec C) where
  free-granted :
      (now replied : ℕ) (rf : Raft C) (args : RequestVoteArgs) (tail : LogEntry C)
      → log_tail rf.log ≡ ok tail
      → rf.voted_for ≡ none
      → tail.term < args.last_log_term
      → (y : Raft C × RequestVoteReply) × (decide_vote codec now rf args replied ≡ ok y)
        × (y.1.vote_granted ≡ true)
  unfolding decide_vote
  free-granted now replied rf args tail last free fresh =
      let later : (args.last_log_term == tail.term) ≡ false =
        ne→== args.last_log_term tail.term (λ e. omega (arith, e)) in
      let above : leb tail.term args.last_log_term ≡ true = ground arith in
      (
        (
          record (persist codec (record rf { voted_for = some args.candidate_id })) {
            last_heartbeat = now;
          },
          record { term = replied; vote_granted = true },
        ),
        rw (free, last, later, above) refl,
        refl,
      )

  votes_for :
      (now : ℕ) (rf : Raft C) (args : RequestVoteArgs) (tail : LogEntry C)
      → log_tail rf.log ≡ ok tail
      → rf.term < args.term
      → tail.term < args.last_log_term
      → (y : Raft C × RequestVoteReply) × (request_vote codec now rf args ≡ ok y)
        × (y.1.vote_granted ≡ true)
  unfolding request_vote
  votes_for now rf args tail last newer fresh =
      let (y, runs, granted) =
        free-granted now rf.term (reset_term codec args.term (become_follower rf)) args tail
          (unfold reset_term become_follower persist in last)
          (unfold reset_term become_follower persist in refl) fresh in
      (y, rw (ge→ltb args.term rf.term (omega arith), lt→ltb rf.term args.term newer) runs, granted)

  -- CondInstallSnapshot looks at no terms. On a server with the invariant, whose log reaches beyond
  -- the snapshot's index, it keeps the entries behind that and with them the last one, `tail`,
  -- whatever the snapshot's last term is. If `tail` is of an earlier term, the server then votes for
  -- a candidate of a new term whose log ends in a term between the two, though what that log has is
  -- older than what the snapshot covers.
  pub install_votes_stale :
      (n term i now : ℕ) (bytes : List ℕ) (rf r : Raft C) (done : Bool) (tail : LogEntry C)
      (args : RequestVoteArgs)
      → IsReplica n rf
      → rf.commit_index ≤ i
      → i + 1 < n + length rf.log
      → log_tail rf.log ≡ ok tail
      → cond_install_snapshot codec term i bytes rf ≡ ok (r, done)
      → r.term < args.term
      → tail.term < args.last_log_term
      → args.last_log_term < term
      → (log_tail r.log ≡ ok tail)
        × (y : Raft C × RequestVoteReply) × (request_vote codec now r args ≡ ok y)
        × (y.1.vote_granted ≡ true)
  unfolding cond_install_snapshot
  install_votes_stale n term i now bytes rf r done tail args v fresh inside last runs newer later
        older =
      let from : n ≤ i = omega (arith, v.base_applied, v.applied_committed) in
      let (cut, cuts, c) = installed_log-within n term i rf.log v.is_log from inside in
      let same : cut ≡ r.log =
        unfold save_with_snapshot in
        ground (arith, rw (ge→ltb i rf.commit_index fresh, cuts) at runs) in
      let end : log_tail r.log ≡ ok tail =
        subst (λ log. log_tail log ≡ ok tail) same
          (IsCut-log_tail n i rf.log cut tail v.is_log c from inside last) in
      let (y, asks, granted) = votes_for now r args tail end newer later in (end, y, asks, granted)
