-- ===== src/Raft/Step.antt =====
-- A server's life as a sequence of events. Each is one stretch of code under the server's lock, so
-- any interleaving of the goroutines of raft.go is a sequence of these.
pub mod Careful
pub mod Handlers
pub mod Safety
pub mod Revote
use distributed_database.Prelude.{ℕ, List, [], ◌∷◌, Option, Go, ok, panic, ◌>>=◌}
use distributed_database.Raft.Types.{
  Raft, AppendEntriesArgs, AppendEntriesReply, RequestVoteArgs, RequestVoteReply,
  InstallSnapshotArgs, InstallSnapshotReply, Codec,
}
use distributed_database.Raft.Node.{kill}
use distributed_database.Raft.Vote.{request_vote}
use distributed_database.Raft.Append.{append_entries}
use distributed_database.Raft.Snapshots.{cond_install_snapshot, snapshot, install_snapshot}
use distributed_database.Raft.Election.{election_round, vote_reply}
use distributed_database.Raft.Leader.{sync, snapshot_installed, start_append}
use distributed_database.Raft.Boot.{apply_round, make}

pub data Event {ℓ} (C : Type ℓ) : Type ℓ where
  -- the RPC handlers, with the time
  asked_vote : ℕ → RequestVoteArgs → Event C
  sent_entries : ℕ → AppendEntriesArgs C → Event C
  sent_snapshot : ℕ → InstallSnapshotArgs → Event C
  -- the timers: the time, and the next timeout
  election_timer : ℕ → ℕ → Event C
  -- replies: the count of votes, or the peer, and the request
  got_vote : ℕ → RequestVoteArgs → RequestVoteReply → Event C
  got_sync : ℕ → AppendEntriesArgs C → AppendEntriesReply → Event C
  got_install : ℕ → InstallSnapshotArgs → InstallSnapshotReply → Event C
  -- calls of the service above, of Start up to its BroadcastHeartbeat, and its apply loop
  started : Option C → Event C
  cond_installed : ℕ → ℕ → List ℕ → Event C
  snapshotted : ℕ → List ℕ → Event C
  applied : Event C
  was_killed : Event C
  -- a crash, and a new server on the same persister, with its first timeout
  restarted : ℕ → Event C

module _ {ℓ} {C : Type ℓ} (codec : Codec C) where
  unfoldable pub step : Raft C → Event C → Go (Raft C)
  step rf (asked_vote now args) = do r ← request_vote codec now rf args; ok r.0
  step rf (sent_entries now args) = do r ← append_entries codec now rf args; ok r.0
  step rf (sent_snapshot now args) = ok (install_snapshot codec now rf args).0
  step rf (election_timer now timeout) = do r ← election_round codec now timeout rf; ok r.0
  step rf (got_vote vote args reply) = do r ← vote_reply codec rf vote args reply; ok r.0
  step rf (got_sync peer args reply) = sync codec peer args reply rf
  step rf (got_install peer args reply) = snapshot_installed codec peer args reply rf
  step rf (started command) = do r ← start_append codec command rf; ok r.0
  step rf (cond_installed term index bytes) = do
    r ← cond_install_snapshot codec term index bytes rf
    ok r.0
  step rf (snapshotted index bytes) = snapshot codec index bytes rf
  step rf applied = do r ← apply_round rf; ok r.0
  step rf was_killed = ok (kill rf)
  step rf (restarted timeout) = make codec rf.peers rf.me rf.persister timeout

  unfoldable pub run : Raft C → List (Event C) → Go (Raft C)
  unfolding step
  run rf [] = ok rf
  run rf (e ∷ es) = do rf' ← step rf e; run rf' es
