-- ===== src/Raft/Network/Effects.antt =====
-- What the operations of a server do to its log.
use distributed_database.Prelude.{
  ℕ, ◌+◌, ◌≤◌, ◌≡◌, ap, sym, subst, ◌∙◌, ◌⊎◌, inl, inr, List, [], ◌∷◌, ◌++◌, Bool, Option, none,
  some, ok, ◌>>=◌, arith, ltb, Bool-cases, >>=-eq-ok,
}
use distributed_database.Raft.Types.{
  Raft, leader, Saved, LogEntry, AppendEntriesArgs, AppendEntriesReply, RequestVoteArgs,
  RequestVoteReply, Codec, IsCodec,
}
use distributed_database.Raft.Node.{kill}
use distributed_database.Raft.Log.{get_log_at_index, log_tail}
use distributed_database.Raft.Vote.{request_vote}
use distributed_database.Raft.Election.{election_round, vote_reply, count_vote, take_office}
use distributed_database.Raft.Snapshots.{
  has_index, compacted_log, installed_log, save_with_snapshot, cond_install_snapshot, snapshot,
  install_snapshot,
}
use distributed_database.Raft.Leader.{
  sync, acknowledge, advance_commit, snapshot_installed, start_append,
}
use distributed_database.Raft.Boot.{apply_round}
use distributed_database.Raft.Boot.Recovery.{make-saved}
use distributed_database.Raft.Step.{
  Event, asked_vote, sent_entries, sent_snapshot, election_timer, got_vote, got_sync, got_install,
  started, cond_installed, snapshotted, applied, was_killed, restarted, step,
}
use distributed_database.Raft.Step.Careful.{IsDurable}
use distributed_database.Raft.Network.{Birth, IsQuiet}
use distributed_database.Raft.Network.Grown.{end_of, IsGrown}
use distributed_database.Raft.Network.Cuts.{compacted_log-IsGrown, installed_log-IsGrown}

module _ {C : Type 0} where
  -- The log after a step, at which nothing is lost at the end.
  pub record Extends (born : List (Birth C)) (log log' : List (LogEntry C)) : Type 0 where
    pub grown : IsGrown born log'
    pub longer : end_of log ≤ end_of log'

  pub same-Extends :
      (born : List (Birth C)) (log log' : List (LogEntry C))
      → IsGrown born log
      → log' ≡ log
      → Extends born log log'
  same-Extends born log log' g same = record {
    grown = subst (IsGrown born) (sym same) g;
    longer = omega (arith, ap end_of same);
  }

module _ {C : Type 0} (codec : Codec C) where
  -- Elections leave the logs alone.
  pub request_vote-log :
      (now : ℕ) (rf : Raft C) (args : RequestVoteArgs) (r : Raft C) (reply : RequestVoteReply)
      → request_vote codec now rf args ≡ ok (r, reply)
      → r.log ≡ rf.log
  unfolding request_vote
  request_vote-log now rf args r reply h = ground arith

  pub election_round-log :
      (now timeout : ℕ) (rf r : Raft C) (sent : Option RequestVoteArgs)
      → election_round codec now timeout rf ≡ ok (r, sent)
      → r.log ≡ rf.log
  unfolding election_round
  election_round-log now timeout rf r sent h = ground arith

  pub vote_reply-log :
      (rf r : Raft C) (vote vote' : ℕ) (args : RequestVoteArgs) (reply : RequestVoteReply)
      (won : Bool)
      → vote_reply codec rf vote args reply ≡ ok (r, vote', won)
      → r.log ≡ rf.log
  unfolding vote_reply count_vote take_office
  vote_reply-log rf r vote vote' args reply won h = ground arith

  quiet_vote-log :
      (rf r : Raft C) (vote : ℕ) (args : RequestVoteArgs) (reply : RequestVoteReply)
      → (vote_reply codec rf vote args reply >>= λ x. ok x.0) ≡ ok r
      → r.log ≡ rf.log
  quiet_vote-log rf r vote args reply h =
      let (x, runs, done) = >>=-eq-ok (vote_reply codec rf vote args reply) _ h in
      let same : x.0 ≡ r = cc in
      sym (ap (λ (s : Raft C). s.log) same) ∙ vote_reply-log rf x.0 vote x.1 args reply x.2 runs

  snapshot-Extends :
      (born : List (Birth C)) (index : ℕ) (bytes : List ℕ) (rf r : Raft C)
      → IsGrown born rf.log
      → snapshot codec index bytes rf ≡ ok r
      → Extends born rf.log r.log
  unfolding snapshot
  snapshot-Extends born index bytes rf r g h = elim (Bool-cases (has_index index rf.log)) [
    | inr missing ↦ same-Extends born rf.log r.log g (ground arith)
    | inl present ↦
        let (cut, runs, done) = >>=-eq-ok (compacted_log index rf.log) _ (rw present at h) in
        let same : cut ≡ r.log = unfold save_with_snapshot in ground arith in
        let (grown, end) = compacted_log-IsGrown born rf.log cut index g runs in
        subst (Extends born rf.log) same (record { grown = grown; longer = omega (arith, end) })
  ]

  pub install-Extends :
      (born : List (Birth C)) (term index : ℕ) (bytes : List ℕ) (rf r : Raft C) (done : Bool)
      → IsGrown born rf.log
      → ((e : LogEntry C) → get_log_at_index rf.log index ≡ ok (some e) → e.term ≡ term)
      → cond_install_snapshot codec term index bytes rf ≡ ok (r, done)
      → Extends born rf.log r.log
  unfolding cond_install_snapshot
  install-Extends born term index bytes rf r done g known h =
      elim (Bool-cases (ltb index rf.commit_index)) [
        | inl old ↦ same-Extends born rf.log r.log g (ground arith)
        | inr new ↦
            let (cut, runs, made) = >>=-eq-ok (installed_log term index rf.log) _ (rw new at h) in
            let same : cut ≡ r.log = unfold save_with_snapshot in ground arith in
            let (grown, end) = installed_log-IsGrown born rf.log cut term index g known runs in
            subst (Extends born rf.log) same (record { grown = grown; longer = end })
      ]

  -- Start's first part does nothing, or it puts the command behind the log's end, at its index.
  pub start_append-log :
      (command : Option C) (rf r : Raft C) (index : Option ℕ) (tail : LogEntry C)
      → log_tail rf.log ≡ ok tail
      → start_append codec command rf ≡ ok (r, index)
      → ((index ≡ none) × (r.log ≡ rf.log))
        ⊎ ((rf.state ≡ leader)
            × (r.term ≡ rf.term)
            × (index ≡ some (tail.index + 1))
            × (r.log
                ≡ rf.log
                  ++ record { term = r.term; index = tail.index + 1; command = command } ∷ []))
  unfolding start_append
  start_append-log command rf r index tail at h = ground (arith, at)

  sync-log :
      (peer : ℕ) (args : AppendEntriesArgs C) (reply : AppendEntriesReply) (rf r : Raft C)
      → sync codec peer args reply rf ≡ ok r
      → r.log ≡ rf.log
  unfolding sync acknowledge advance_commit
  sync-log peer args reply rf r h = ground arith

module _ {C : Type 0} (codec : Codec C) (law : IsCodec codec) where
  pub quiet-Extends :
      (born : List (Birth C)) (rf r : Raft C) (e : Event C)
      → IsGrown born rf.log
      → IsDurable codec rf
      → IsQuiet e
      → step codec rf e ≡ ok r
      → Extends born rf.log r.log
  unfolding step
  quiet-Extends born rf r (asked_vote now args) g d q h = absurd q
  quiet-Extends born rf r (sent_entries now args) g d q h = absurd q
  quiet-Extends born rf r (sent_snapshot now args) g d q h =
      same-Extends born rf.log r.log g (unfold install_snapshot in ground arith)
  quiet-Extends born rf r (election_timer now timeout) g d q h = absurd q
  quiet-Extends born rf r (got_vote vote args reply) g d q h =
      same-Extends born rf.log r.log g (quiet_vote-log codec rf r vote args reply h)
  quiet-Extends born rf r (got_sync peer args reply) g d q h =
      same-Extends born rf.log r.log g (sync-log codec peer args reply rf r h)
  quiet-Extends born rf r (got_install peer args reply) g d q h =
      same-Extends born rf.log r.log g (unfold snapshot_installed in ground arith)
  quiet-Extends born rf r (started command) g d q h = absurd q
  quiet-Extends born rf r (cond_installed term index bytes) g d q h = absurd q
  quiet-Extends born rf r (snapshotted index bytes) g d q h =
      snapshot-Extends codec born index bytes rf r g h
  quiet-Extends born rf r applied g d q h =
      same-Extends born rf.log r.log g (unfold apply_round in ground arith)
  quiet-Extends born rf r was_killed g d q h =
      same-Extends born rf.log r.log g (unfold kill in ground arith)
  quiet-Extends born rf r (restarted timeout) g d q h =
      let (same, _, _) = make-saved codec law rf r timeout d h in
      same-Extends born rf.log r.log g (ap (λ (s : Saved C). s.log) same)
