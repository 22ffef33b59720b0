-- ===== src/Query.antt =====
-- The helpers of src/query-utils.ts.
pub mod Like
pub mod Pattern
pub mod Saved
pub mod Greedy
