-- ===== src/Sql/Total.antt =====
-- What each method of src/parser.ts leaves of the text.
pub mod Rules
pub mod Tokens
pub mod Methods
pub mod Values
pub mod Clauses
pub mod Tables
pub mod Statements
