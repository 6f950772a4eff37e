-- ===== src/Models.antt =====
-- The sequential specifications that the tests check histories against (src/test_files/models).
pub mod Kv
