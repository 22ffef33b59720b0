-- ===== src/Executor.antt =====
-- The SQL executor, src/executor.ts.
pub mod Result
pub mod Maps
pub mod Values
pub mod Table
pub mod Where
pub mod Plan
pub mod Coerce
pub mod Keys
pub mod Insert
pub mod Collect
pub mod Change
pub mod Schema
pub mod TopK
pub mod Select
pub mod Answer
pub mod Prepared
pub mod Run
pub mod Valid
