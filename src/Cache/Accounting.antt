-- ===== src/Cache/Accounting.antt =====
-- The byte count of the cache of src/cache.ts.
pub mod Sizes
pub mod Balance
pub mod History
pub mod Bounds
pub mod Eviction
pub mod Recent
pub mod Written
