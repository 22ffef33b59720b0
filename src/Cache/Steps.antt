-- ===== src/Cache/Steps.antt =====
-- src/cache.ts: the changes of state that the methods of `KVCache` are made of, as a step
-- relation, and its closure under sequences and nested atomic sections.
pub mod Relation
pub mod Core
pub mod Methods
pub mod Writes
pub mod Sessions
pub mod Atomic
pub mod Compound
pub mod Transactions
pub mod Replace
