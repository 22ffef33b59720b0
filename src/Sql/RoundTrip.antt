-- ===== src/Sql/RoundTrip.antt =====
-- The parser of src/parser.ts on printed syntax.
pub mod Reads
pub mod Loops
pub mod Expressions
pub mod Operands
pub mod Precedence
pub mod Clauses
pub mod Names
pub mod Written
pub mod Tokens
