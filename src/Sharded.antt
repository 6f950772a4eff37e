-- ===== src/Sharded.antt =====
-- The sharded database (src/db_files/raft-db-sharded).
pub mod Types
pub mod Server
pub mod Client
