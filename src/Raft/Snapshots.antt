-- ===== src/Raft/Snapshots.antt =====
-- Snapshots in raft.go: Snapshot, CondInstallSnapshot and the InstallSnapshot handler.
use distributed_database.Prelude.{
  ℕ, Bool, true, false, List, [], ◌∷◌, none, Go, ok, panic, ◌>>=◌, ltb, leb, ◌==◌, if◌then◌else◌,
}
use distributed_database.Raft.Types.{
  LogEntry, ApplyMsg, Raft, InstallSnapshotArgs, InstallSnapshotReply, Codec,
}
use distributed_database.Raft.Log.{log_tail, log_index_to_subscript, slice_from, slice_to}
use distributed_database.Raft.Node.{serialize_state, save_state_and_snapshot, adopt_term}

module _ {ℓ} {C : Type ℓ} where
  -- rf.log[0].Index = index; rf.log[0].Term = term; rf.log[0].Command = nil
  unfoldable pub set_head : ℕ → ℕ → List (LogEntry C) → Go (List (LogEntry C))
  set_head index term [] = panic
  set_head index term (e ∷ es) = ok (record { term = term; index = index; command = none } ∷ es)

  -- rf.log[0].Command = nil
  unfoldable pub clear_head : List (LogEntry C) → Go (List (LogEntry C))
  clear_head [] = panic
  clear_head (e ∷ es) = ok (record e { command = none } ∷ es)

  -- The log behind a snapshot that covers the entries up to `index`.
  unfoldable pub cut_log : ℕ → List (LogEntry C) → Go (List (LogEntry C))
  unfolding log_tail log_index_to_subscript slice_from slice_to
  cut_log index log = do
    tail ← log_tail log
    if leb tail.index index
        then slice_to log 1
        else log_index_to_subscript log index >>= slice_from log

  -- The new log of CondInstallSnapshot, and that of Snapshot.
  unfoldable pub installed_log : ℕ → ℕ → List (LogEntry C) → Go (List (LogEntry C))
  unfolding cut_log set_head
  installed_log term index log = do cut ← cut_log index log; set_head index term cut

  unfoldable pub compacted_log : ℕ → List (LogEntry C) → Go (List (LogEntry C))
  unfolding log_index_to_subscript slice_from clear_head
  compacted_log index log = do
    k ← log_index_to_subscript log index
    cut ← slice_from log k
    clear_head cut

  -- The loop of Snapshot, which stops at the first entry with the index.
  unfoldable pub has_index : ℕ → List (LogEntry C) → Bool
  has_index i [] = false
  has_index i (e ∷ es) = if e.index == i then true else has_index i es

module _ {ℓ} {C : Type ℓ} (codec : Codec C) where
  unfoldable pub save_with_snapshot : List ℕ → Raft C → Raft C
  unfolding save_state_and_snapshot serialize_state
  save_with_snapshot snapshot rf = record rf {
    persister = save_state_and_snapshot rf.persister (serialize_state codec rf) snapshot;
  }

  unfoldable pub cond_install_snapshot : ℕ → ℕ → List ℕ → Raft C → Go (Raft C × Bool)
  unfolding save_with_snapshot
  cond_install_snapshot last_included_term last_included_index snapshot rf =
      if ltb last_included_index rf.commit_index then ok (rf, false) else (do
        log ← installed_log last_included_term last_included_index rf.log
        ok (
          save_with_snapshot snapshot (record rf {
            log = log;
            commit_index = last_included_index;
            last_applied = last_included_index;
          }),
          true,
        ))

  unfoldable pub snapshot : ℕ → List ℕ → Raft C → Go (Raft C)
  unfolding save_with_snapshot
  snapshot index bytes rf =
      if has_index index rf.log
      then (do
        log ← compacted_log index rf.log
        ok (save_with_snapshot bytes (record rf { log = log })))
      else ok rf

  -- The handler, with the message that it sends on the apply channel.
  unfoldable pub install_snapshot :
      ℕ → Raft C → InstallSnapshotArgs → Raft C × InstallSnapshotReply × List (ApplyMsg C)
  unfolding adopt_term
  install_snapshot now rf args =
      if ltb args.term rf.term then (rf, record { term = rf.term }, []) else (
        adopt_term codec args.term (record rf { last_heartbeat = now }),
        record { term = rf.term },
        record {
          command_valid = false;
          command = none;
          command_index = 0;
          snapshot_valid = true;
          snapshot = args.snapshot_data;
          snapshot_term = args.last_included_term;
          snapshot_index = args.last_included_index;
        }
            ∷ [],
      )
