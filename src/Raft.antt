-- ===== src/Raft.antt =====
-- The Raft package (src/db_files/raft): one server, its handlers and its loops.
pub mod Types
pub mod Log
pub mod Node
pub mod Vote
pub mod Append
pub mod Snapshots
pub mod Election
pub mod Leader
pub mod Boot
pub mod Step
pub mod Cluster
pub mod Network
pub mod Replica
