-- ===== src/RaftDb.antt =====
-- The database on one Raft group (src/db_files/raft-db).
pub mod Types
pub mod Server
pub mod Clerk
