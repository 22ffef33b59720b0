-- ===== src/Tests.antt =====
-- Runs of the model on small inputs.
pub mod Maps
pub mod Nodes
pub mod Caches
pub mod Queues
pub mod Sql
pub mod Statements
pub mod Eviction
pub mod Hubs
pub mod Query
pub mod Logs
