-- ===== src/ShardController.antt =====
-- The shard controller (src/db_files/shard-controller).
pub mod Types
pub mod Rebalance
pub mod Server
pub mod Clerk
