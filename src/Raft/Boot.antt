-- ===== src/Raft/Boot.antt =====
-- Make, readPersist and the apply loop of raft.go.
pub mod Recovery
use distributed_database.Prelude.{
  ℕ, ◌+◌, Bool, true, false, List, [], ◌∷◌, none, Go, ok, ◌>>=◌, deref, replicate, ltb,
  if◌then◌else◌,
}
use distributed_database.Raft.Types.{follower, LogEntry, ApplyMsg, Persister, Raft, Saved, Codec}
use distributed_database.Raft.Log.{log_head, get_log_at_index}
use distributed_database.Raft.Node.{read_raft_state}

module _ {ℓ} {C : Type ℓ} where
  unfoldable pub blank_entry : LogEntry C
  blank_entry = record { term = 0; index = 0; command = none }

  -- The server that Make builds before it reads the persister.
  unfoldable pub fresh : ℕ → ℕ → Persister → ℕ → Raft C
  unfolding blank_entry
  fresh peers me persister election_timeout = record {
    peers = peers;
    me = me;
    persister = persister;
    dead = 0;
    state = follower;
    term = 0;
    voted_for = none;
    log = blank_entry ∷ [];
    last_heartbeat = 0;
    election_timeout = election_timeout;
    commit_index = 0;
    last_applied = 0;
    next_index = replicate peers 1;
    match_index = replicate peers 0;
  }

  unfoldable pub need_apply : Raft C → Bool
  need_apply rf = ltb rf.last_applied rf.commit_index

  -- One round of DoApply that does not wait: the message that goes out on the channel.
  unfoldable pub apply_round : Raft C → Go (Raft C × List (ApplyMsg C))
  unfolding need_apply
  apply_round rf =
      if need_apply rf
      then (do
        found ← get_log_at_index rf.log (rf.last_applied + 1)
        entry ← deref found
        ok (record rf { last_applied = rf.last_applied + 1 }, message entry ∷ []))
      else ok (rf, [])
    where
      message : LogEntry C → ApplyMsg C
      message e = record {
        command_valid = true;
        command = e.command;
        command_index = e.index;
        snapshot_valid = false;
        snapshot = [];
        snapshot_term = 0;
        snapshot_index = 0;
      }

  -- The server with what was saved, and a log that starts at index `base`.
  abbrev pub restored : Raft C → Saved C → ℕ → Raft C
  restored rf s base = record rf {
    term = s.term;
    voted_for = s.voted_for;
    log = s.log;
    commit_index = base;
    last_applied = base;
  }

  unfoldable pub restore : Raft C → Saved C → Go (Raft C)
  restore rf s = do first ← log_head s.log; ok (restored rf s first.index)

module _ {ℓ} {C : Type ℓ} (codec : Codec C) where
  unfoldable pub read_persist : List ℕ → Raft C → Go (Raft C)
  unfolding restore
  read_persist [] rf = ok rf
  read_persist (b ∷ bytes) rf = deref (codec.decode (b ∷ bytes)) >>= restore rf

  -- Make, with the first timeout drawn beforehand.
  unfoldable pub make : ℕ → ℕ → Persister → ℕ → Go (Raft C)
  unfolding fresh read_raft_state read_persist
  make peers me persister election_timeout =
      read_persist (read_raft_state persister) (fresh peers me persister election_timeout)
