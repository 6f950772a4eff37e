-- ===== src/Raft/Cluster/Other.antt =====
-- Every event outside an election keeps what Own lists.
use distributed_database.Prelude.{◌≡◌, subst, Go, ok, ◌>>=◌, >>=-eq-ok}
use distributed_database.Raft.Types.{Raft, Codec}
use distributed_database.Raft.Node.{kill}
use distributed_database.Raft.Append.{append_entries}
use distributed_database.Raft.Snapshots.{cond_install_snapshot, install_snapshot}
use distributed_database.Raft.Election.{vote_reply}
use distributed_database.Raft.Leader.{start_append}
use distributed_database.Raft.Boot.{apply_round}
use distributed_database.Raft.Step.{
  Event, asked_vote, sent_entries, sent_snapshot, election_timer, got_vote, got_sync, got_install,
  started, cond_installed, snapshotted, applied, was_killed, restarted, step,
}
use distributed_database.Raft.Cluster.{IsOther}
use distributed_database.Raft.Cluster.Own
use distributed_database.Raft.Cluster.Own.{Keeps}

module _ {ℓ} {C : Type ℓ} (codec : Codec C) where
  returned {κ} :
      {A : Type κ} (rf r : Raft C) (m : Go A) (server : A → Raft C)
      → (m >>= λ s. ok (server s)) ≡ ok r
      → ((s : A) → m ≡ ok s → Keeps rf (server s))
      → Keeps rf r
  returned rf r m server h each =
      let (s, runs, done) = >>=-eq-ok m (λ s. ok (server s)) h in
      let same : server s ≡ r = cc in subst (Keeps rf) same (each s runs)

  pub step-Keeps : (rf r : Raft C) (e : Event C) → IsOther e → step codec rf e ≡ ok r → Keeps rf r
  unfolding step
  step-Keeps rf r (asked_vote now args) o h = absurd o
  step-Keeps rf r (sent_entries now args) o h =
      returned rf r (append_entries codec now rf args) (λ s. s.0) h
        (Own.append_entries-Keeps codec now rf args)
  step-Keeps rf r (sent_snapshot now args) o h =
      returned rf r (ok (install_snapshot codec now rf args).0) (λ s. s) h
        (λ s e. subst (Keeps rf) (cc) (Own.install_snapshot-Keeps codec now rf args))
  step-Keeps rf r (election_timer now timeout) o h = absurd o
  step-Keeps rf r (got_vote vote args reply) o h =
      returned rf r (vote_reply codec rf vote args reply) (λ s. s.0) h
        (λ s e. Own.vote_reply-Keeps codec rf s.0 vote s.1 args reply s.2 e o)
  step-Keeps rf r (got_sync peer args reply) o h = Own.sync-Keeps codec peer args reply rf r h
  step-Keeps rf r (got_install peer args reply) o h =
      Own.snapshot_installed-Keeps codec peer args reply rf r h
  step-Keeps rf r (started command) o h =
      returned rf r (start_append codec command rf) (λ s. s.0) h
        (Own.start_append-Keeps codec command rf)
  step-Keeps rf r (cond_installed term index bytes) o h =
      returned rf r (cond_install_snapshot codec term index bytes rf) (λ s. s.0) h
        (Own.cond_install_snapshot-Keeps codec term index bytes rf)
  step-Keeps rf r (snapshotted index bytes) o h = Own.snapshot-Keeps codec index bytes rf r h
  step-Keeps rf r applied o h =
      returned rf r (apply_round rf) (λ s. s.0) h (Own.apply_round-Keeps codec rf)
  step-Keeps rf r was_killed o h =
      returned rf r (ok (kill rf)) (λ s. s) h
        (λ s e. subst (Keeps rf) (cc) (Own.kill-Keeps codec rf))
  step-Keeps rf r (restarted timeout) o h = Own.make-Keeps codec rf r timeout h
