-- ===== src/Cache.antt =====
-- `KVCache` and `KVTransaction` of src/cache.ts.
pub mod State
pub mod Core
pub mod Read
pub mod Write
pub mod Deadline
pub mod Counter
pub mod Atomic
pub mod Snapshot
pub mod Transaction
pub mod Steps
pub mod Calls
pub mod Accounting
