-- ===== src/Raft/Step/Safety.antt =====
-- Votes over the life of a server, crashes included.
use distributed_database.Prelude.{
  ℕ, ◌≤◌, ◌<◌, ◌≡◌, ◌≢◌, ap, subst, ◌⊎◌, inl, inr, List, [], ◌∷◌, some, none, true, Go, ok, arith,
  >>=-eq-ok,
}
use distributed_database.Raft.Types.{
  Raft, candidate, RequestVoteArgs, RequestVoteReply, Codec, IsCodec,
}
use distributed_database.Raft.Vote.{request_vote}
use distributed_database.Prelude.{◌>>=◌}
use distributed_database.Raft.Types.{Saved}
use distributed_database.Raft.Node.{kill}
use distributed_database.Raft.Append.{append_entries}
use distributed_database.Raft.Snapshots.{cond_install_snapshot, install_snapshot}
use distributed_database.Raft.Election.{election_round, vote_reply}
use distributed_database.Raft.Leader.{start_append}
use distributed_database.Raft.Boot.{apply_round}
use distributed_database.Raft.Boot.Recovery.{make-saved, make-IsDurable}
use distributed_database.Raft.Step.Careful.{IsDurable, Careful, Quiet-Careful}
use distributed_database.Raft.Step.Handlers
use distributed_database.Raft.Step.{
  Event, asked_vote, sent_entries, sent_snapshot, election_timer, got_vote, got_sync, got_install,
  started, cond_installed, snapshotted, applied, was_killed, restarted, step, run,
}

module _ {ℓ} {C : Type ℓ} (codec : Codec C) (law : IsCodec codec) where
  -- What survives an event, a restart included.
  pub record Survives (rf r : Raft C) : Type ℓ where
    pub term_le : rf.term ≤ r.term
    pub vote_kept :
        r.term ≡ rf.term
        → (r.voted_for ≡ rf.voted_for) ⊎ (rf.voted_for ≡ none) ⊎ (rf.state ≡ candidate)
    pub no_candidate : r.term ≡ rf.term → r.state ≡ candidate → rf.state ≡ candidate
    pub durable : IsDurable codec r

  careful : {rf r : Raft C} → IsDurable codec rf → Careful codec rf r → Survives rf r
  careful d s = record {
    term_le = s.term_le;
    vote_kept = s.vote_kept;
    no_candidate = s.no_candidate;
    durable = s.durable d;
  }

  handled {κ} :
      {A : Type κ} (rf r : Raft C) (m : Go A) (server : A → Raft C)
      → IsDurable codec rf
      → (m >>= λ s. ok (server s)) ≡ ok r
      → ((s : A) → m ≡ ok s → Careful codec rf (server s))
      → Survives rf r
  handled rf r m server d h each =
      let (s, runs, done) = >>=-eq-ok m (λ s. ok (server s)) h in
      let same : server s ≡ r = cc in careful d (subst (Careful codec rf) same (each s runs))

  pub step-Survives :
      (rf r : Raft C) (e : Event C) → IsDurable codec rf → step codec rf e ≡ ok r → Survives rf r
  unfolding step
  step-Survives rf r (asked_vote now args) d h =
      handled rf r (request_vote codec now rf args) (λ s. s.0) d h
        (Handlers.request_vote-Careful codec now rf args)
  step-Survives rf r (sent_entries now args) d h =
      handled rf r (append_entries codec now rf args) (λ s. s.0) d h
        (Handlers.append_entries-Careful codec now rf args)
  step-Survives rf r (sent_snapshot now args) d h =
      handled rf r (ok (install_snapshot codec now rf args).0) (λ s. s) d h
        (λ s e. subst (Careful codec rf) (cc) (Handlers.install_snapshot-Careful codec now rf args))
  step-Survives rf r (election_timer now timeout) d h =
      handled rf r (election_round codec now timeout rf) (λ s. s.0) d h
        (Handlers.election_round-Careful codec now timeout rf)
  step-Survives rf r (got_vote vote args reply) d h =
      handled rf r (vote_reply codec rf vote args reply) (λ s. s.0) d h
        (Handlers.vote_reply-Careful codec rf vote args reply)
  step-Survives rf r (got_sync peer args reply) d h =
      careful d (Handlers.sync-Careful codec peer args reply rf r h)
  step-Survives rf r (got_install peer args reply) d h =
      careful d (Handlers.snapshot_installed-Careful codec peer args reply rf r h)
  step-Survives rf r (started command) d h =
      handled rf r (start_append codec command rf) (λ s. s.0) d h
        (λ s e. Quiet-Careful codec (Handlers.start_append-Quiet codec command rf s e))
  step-Survives rf r (cond_installed term index bytes) d h =
      handled rf r (cond_install_snapshot codec term index bytes rf) (λ s. s.0) d h
        (λ s e.
          Quiet-Careful codec (Handlers.cond_install_snapshot-Quiet codec term index bytes rf s e))
  step-Survives rf r (snapshotted index bytes) d h =
      careful d (Quiet-Careful codec (Handlers.snapshot-Quiet codec index bytes rf r h))
  step-Survives rf r applied d h =
      handled rf r (apply_round rf) (λ s. s.0) d h
        (λ s e. Quiet-Careful codec (Handlers.apply_round-Quiet codec rf s e))
  step-Survives rf r was_killed d h =
      handled rf r (ok (kill rf)) (λ s. s) d h
        (λ s e. subst (Careful codec rf) (cc) (Quiet-Careful codec (Handlers.kill-Quiet codec rf)))
  step-Survives rf r (restarted timeout) d h =
      let (same, state, _) = make-saved codec law rf r timeout d h in
      record {
        term_le = omega (arith, ap (λ (s : Saved C). s.term) same);
        vote_kept = λ _. inl (ap (λ (s : Saved C). s.voted_for) same);
        no_candidate = λ _ c. cc (state);
        durable = make-IsDurable codec law rf r timeout d h;
      }

  -- A vote for `c` in term `t` that this server will not take back: it is past that term, or it
  -- holds the vote and does not stand itself.
  pub record Pledged (c t : ℕ) (rf : Raft C) : Type ℓ where
    pub durable : IsDurable codec rf
    pub pledge : (t < rf.term) ⊎ ((rf.term ≡ t) × (rf.voted_for ≡ some c) × (rf.state ≢ candidate))

  pub step-Pledged :
      (c t : ℕ) (rf r : Raft C) (e : Event C)
      → Pledged c t rf
      → step codec rf e ≡ ok r
      → Pledged c t r
  step-Pledged c t rf r e p h =
      let s = step-Survives rf r e p.durable h in
      record {
        durable = s.durable;
        pledge = ground (arith, s.term_le, s.vote_kept, s.no_candidate);
      }

  run-Pledged :
      (c t : ℕ) (rf r : Raft C) (es : List (Event C))
      → Pledged c t rf
      → run codec rf es ≡ ok r
      → Pledged c t r
  unfolding run
  run-Pledged c t rf r [] p h = let same : rf ≡ r = cc in subst (Pledged c t) same p
  run-Pledged c t rf r (e ∷ es) p h =
      let (next, now, later) = >>=-eq-ok (step codec rf e) (λ s. run codec s es) h in
      run-Pledged c t next r es (step-Pledged c t rf next e p now) later

  -- A vote is granted in the message's term, and is for the message's sender.
  pub request_vote-Pledged :
      (now : ℕ) (rf : Raft C) (args : RequestVoteArgs) (x : Raft C × RequestVoteReply)
      → IsDurable codec rf
      → request_vote codec now rf args ≡ ok x
      → x.1.vote_granted ≡ true
      → x.0.state ≢ candidate
      → Pledged args.candidate_id args.term x.0
  unfolding request_vote
  request_vote-Pledged now rf args x d h granted idle = record {
    durable = (Handlers.request_vote-Careful codec now rf args x h).durable d;
    pledge = inr (ground arith, ground arith, idle);
  }

  pub Pledged-grants :
      (c t now : ℕ) (rf : Raft C) (args : RequestVoteArgs) (y : Raft C × RequestVoteReply)
      → Pledged c t rf
      → request_vote codec now rf args ≡ ok y
      → args.term ≡ t
      → y.1.vote_granted ≡ true
      → args.candidate_id ≡ c
  unfolding request_vote
  Pledged-grants c t now rf args y p h same granted = ground (arith, p.pledge)

  -- One vote per term: of two votes that a server grants in one term, with anything in between, in
  -- any order, crashes and restarts included, the second is for the candidate of the first. The
  -- server does not stand itself when it grants the first, and has its state on its disk before.
  pub one_vote_per_term :
      (now now' : ℕ) (rf r : Raft C) (es : List (Event C)) (first second : RequestVoteArgs)
      (x y : Raft C × RequestVoteReply)
      → IsDurable codec rf
      → request_vote codec now rf first ≡ ok x
      → x.1.vote_granted ≡ true
      → x.0.state ≢ candidate
      → run codec x.0 es ≡ ok r
      → request_vote codec now' r second ≡ ok y
      → y.1.vote_granted ≡ true
      → second.term ≡ first.term
      → second.candidate_id ≡ first.candidate_id
  one_vote_per_term now now' rf r es first second x y d asks granted idle runs asks' granted' same =
      Pledged-grants first.candidate_id first.term now' r second y
        (run-Pledged first.candidate_id first.term x.0 r es
          (request_vote-Pledged now rf first x d asks granted idle) runs)
        asks' same granted'

  -- A server's term never falls, whatever happens to it, crashes and restarts included; and its
  -- term, vote and log stay on its disk.
  pub run-IsDurable :
      (rf r : Raft C) (es : List (Event C))
      → IsDurable codec rf
      → run codec rf es ≡ ok r
      → (rf.term ≤ r.term) × IsDurable codec r
  unfolding run
  run-IsDurable rf r [] d h = let same : rf ≡ r = cc in rw (← same) (omega arith, d)
  run-IsDurable rf r (e ∷ es) d h =
      let (next, now, later) = >>=-eq-ok (step codec rf e) (λ s. run codec s es) h in
      let s = step-Survives rf next e d now in
      let (rises, kept) = run-IsDurable next r es s.durable later in
      (omega (arith, s.term_le, rises), kept)
