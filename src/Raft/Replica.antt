-- ===== src/Raft/Replica.antt =====
-- The invariant of a server's log and of its two indices into it.
pub mod Append
pub mod Apply
pub mod Start
pub mod Made
pub mod Snapshots
pub mod Stale
use distributed_database.Prelude.{ℕ, ◌+◌, ◌≤◌, ◌<◌, length}
use distributed_database.Raft.Types.{Raft}
use distributed_database.Raft.Log.Contiguous.{IsLog}

-- The log has base `n` and counts up; applied entries are committed, and committed ones are there.
pub record IsReplica {ℓ} {C : Type ℓ} (n : ℕ) (rf : Raft C) : Type 0 where
  pub is_log : IsLog n rf.log
  pub base_applied : n ≤ rf.last_applied
  pub applied_committed : rf.last_applied ≤ rf.commit_index
  pub committed : rf.commit_index < n + length rf.log
