-- ===== src/Sql.antt =====
-- The SQL parser of src/parser.ts, and the syntax of src/types.ts.
pub mod Result
pub mod Syntax
pub mod Lexer
pub mod Numeric
pub mod Parser
pub mod Clauses
pub mod Separated
pub mod Tables
pub mod Statements
pub mod Total
pub mod Printer
pub mod RoundTrip
