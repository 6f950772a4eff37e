-- ===== src/Tests.antt =====
-- Runs of the models on small inputs, and instances of the theorems about them.
pub mod Examples
pub mod Votes
pub mod Logs
pub mod Leads
pub mod Stores
pub mod Configs
pub mod Shards
pub mod Clients
pub mod Elections
pub mod Reports
pub mod Stale
pub mod Wire
pub mod Restarts
pub mod Controllers
pub mod Wiring
