-- ===== src/Lexer.antt =====
-- The SQL lexer of src/server/db/sql/lexer.ts, one child for each part of the file.
pub mod Rules
pub mod Scan
pub mod Region
pub mod Lines
pub mod Split
pub mod Caret
pub mod Tokens
pub mod Classify
pub mod Destructive
pub mod Placeholders
mod Tests
