-- ===== src/Raft/Step/Handlers.antt =====
-- Every handler and loop of the server is careful with its term, its vote and its disk.
use distributed_database.Prelude.{
  ℕ, ◌≡◌, inl, inr, List, [], ◌∷◌, Option, some, none, Bool, ok, arith, Bool-cases, ltb→ge, ltb,
}
use distributed_database.Raft.Types.{
  Raft, AppendEntriesArgs, AppendEntriesReply, RequestVoteArgs, RequestVoteReply,
  InstallSnapshotArgs, InstallSnapshotReply, Codec, LogEntry,
}
use distributed_database.Raft.Node.{persist}
use distributed_database.Raft.Vote.{request_vote}
use distributed_database.Raft.Append.{
  append_entries, accept_entries, merge_entries, follow_commit, check_prev,
}
use distributed_database.Prelude.{>>=-eq-ok, subst}
use distributed_database.Raft.Types.{ApplyMsg}
use distributed_database.Raft.Node.{kill}
use distributed_database.Raft.Snapshots.{cond_install_snapshot, snapshot, install_snapshot}
use distributed_database.Raft.Election.{election_round, vote_reply, take_office, count_vote}
use distributed_database.Raft.Leader.{
  advance_commit, sync, acknowledge, back_off, snapshot_installed, start_append,
}
use distributed_database.Raft.Boot.{apply_round}
use distributed_database.Raft.Step.Careful.{
  Quiet, Careful, Quiet-Careful, Careful-Quiet, Quiet-refl, Quiet-trans, Quiet-then,
  adopt_term-Careful,
}

module _ {ℓ} {C : Type ℓ} (codec : Codec C) where
  pub request_vote-Careful :
      (now : ℕ) (rf : Raft C) (args : RequestVoteArgs) (r : Raft C × RequestVoteReply)
      → request_vote codec now rf args ≡ ok r
      → Careful codec rf r.0
  unfolding request_vote
  request_vote-Careful now rf args r h = ground arith

  pub merge_entries-Quiet :
      (rf : Raft C) (es : List (LogEntry C)) (r : Raft C)
      → merge_entries codec rf es ≡ ok r
      → Quiet codec rf r
  unfolding merge_entries persist
  merge_entries-Quiet rf [] r h = ground arith
  merge_entries-Quiet rf (e ∷ es) r h = ground arith

  pub follow_commit-Quiet :
      (leader_commit : ℕ) (rf r : Raft C) → follow_commit leader_commit rf ≡ ok r → Quiet codec rf r
  unfolding follow_commit
  follow_commit-Quiet leader_commit rf r h = ground arith

  pub accept_entries-Quiet :
      (rf : Raft C) (args : AppendEntriesArgs C) (replied : ℕ) (o : Option AppendEntriesReply)
      (r : Raft C × AppendEntriesReply)
      → accept_entries codec rf args replied o ≡ ok r
      → Quiet codec rf r.0
  unfolding accept_entries
  accept_entries-Quiet rf args replied (some reply) r h = ground arith
  accept_entries-Quiet rf args replied none r h =
      let (merged, first, h') = >>=-eq-ok (merge_entries codec rf args.entries) _ h in
      let (committed, second, last) = >>=-eq-ok (follow_commit args.leader_commit merged) _ h' in
      let done : committed ≡ r.0 = cc in
      subst (Quiet codec rf) done (
        Quiet-trans codec (merge_entries-Quiet rf args.entries merged first)
          (follow_commit-Quiet args.leader_commit merged committed second))

  pub append_entries-Careful :
      (now : ℕ) (rf : Raft C) (args : AppendEntriesArgs C) (r : Raft C × AppendEntriesReply)
      → append_entries codec now rf args ≡ ok r
      → Careful codec rf r.0
  unfolding append_entries
  append_entries-Careful now rf args r h = elim (Bool-cases (ltb args.term rf.term)) [
    | inl stale ↦
        let same : rf ≡ r.0 = ground arith in
        subst (Careful codec rf) same (Quiet-Careful codec (Quiet-refl codec rf))
    | inr current ↦
        let heard : Quiet codec rf (record rf { last_heartbeat = now }) = ground arith in
        let (refused, _, last) = >>=-eq-ok (check_prev _ args rf.term) _ (rw current at h) in
        Careful-Quiet codec
          (Quiet-then codec heard (adopt_term-Careful codec args.term _ (ltb→ge _ _ current)))
          (accept_entries-Quiet _ args rf.term refused r last)
  ]

  pub install_snapshot-Careful :
      (now : ℕ) (rf : Raft C) (args : InstallSnapshotArgs)
      → Careful codec rf (install_snapshot codec now rf args).0
  unfolding install_snapshot
  install_snapshot-Careful now rf args = ground arith

  pub election_round-Careful :
      (now timeout : ℕ) (rf : Raft C) (r : Raft C × Option RequestVoteArgs)
      → election_round codec now timeout rf ≡ ok r
      → Careful codec rf r.0
  unfolding election_round
  election_round-Careful now timeout rf r h = ground arith

  pub take_office-Quiet : (rf r : Raft C) → take_office rf ≡ ok r → Quiet codec rf r
  unfolding take_office
  take_office-Quiet rf r h = ground arith

  pub count_vote-Quiet :
      (rf : Raft C) (vote : ℕ) (r : Raft C × ℕ × Bool)
      → count_vote rf vote ≡ ok r
      → Quiet codec rf r.0
  unfolding count_vote
  count_vote-Quiet rf vote r h = ground arith

  pub vote_reply-Careful :
      (rf : Raft C) (vote : ℕ) (args : RequestVoteArgs) (reply : RequestVoteReply)
      (r : Raft C × ℕ × Bool)
      → vote_reply codec rf vote args reply ≡ ok r
      → Careful codec rf r.0
  unfolding vote_reply
  vote_reply-Careful rf vote args reply r h = ground arith

  pub acknowledge-Quiet :
      (peer : ℕ) (args : AppendEntriesArgs C) (rf r : Raft C)
      → acknowledge peer args rf ≡ ok r
      → Quiet codec rf r
  unfolding acknowledge advance_commit
  acknowledge-Quiet peer args rf r h = ground arith

  pub back_off-Quiet :
      (peer : ℕ) (reply : AppendEntriesReply) (rf r : Raft C)
      → back_off peer reply rf ≡ ok r
      → Quiet codec rf r
  unfolding back_off
  back_off-Quiet peer reply rf r h = ground arith

  pub snapshot_installed-Careful :
      (peer : ℕ) (args : InstallSnapshotArgs) (reply : InstallSnapshotReply) (rf r : Raft C)
      → snapshot_installed codec peer args reply rf ≡ ok r
      → Careful codec rf r
  unfolding snapshot_installed
  snapshot_installed-Careful peer args reply rf r h = ground arith

  pub start_append-Quiet :
      (command : Option C) (rf : Raft C) (r : Raft C × Option ℕ)
      → start_append codec command rf ≡ ok r
      → Quiet codec rf r.0
  unfolding start_append
  start_append-Quiet command rf r h = ground arith

  pub cond_install_snapshot-Quiet :
      (term index : ℕ) (bytes : List ℕ) (rf : Raft C) (r : Raft C × Bool)
      → cond_install_snapshot codec term index bytes rf ≡ ok r
      → Quiet codec rf r.0
  unfolding cond_install_snapshot
  cond_install_snapshot-Quiet term index bytes rf r h = ground arith

  pub snapshot-Quiet :
      (index : ℕ) (bytes : List ℕ) (rf r : Raft C)
      → snapshot codec index bytes rf ≡ ok r
      → Quiet codec rf r
  unfolding snapshot
  snapshot-Quiet index bytes rf r h = ground arith

  pub apply_round-Quiet :
      (rf : Raft C) (r : Raft C × List (ApplyMsg C)) → apply_round rf ≡ ok r → Quiet codec rf r.0
  unfolding apply_round
  apply_round-Quiet rf r h = ground arith

  pub kill-Quiet : (rf : Raft C) → Quiet codec rf (kill rf)
  unfolding kill
  kill-Quiet rf = ground arith

  pub sync-Careful :
      (peer : ℕ) (args : AppendEntriesArgs C) (reply : AppendEntriesReply) (rf r : Raft C)
      → sync codec peer args reply rf ≡ ok r
      → Careful codec rf r
  unfolding sync acknowledge advance_commit
  sync-Careful peer args reply rf r h = ground arith
