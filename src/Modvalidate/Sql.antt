-- ===== src/Modvalidate/Sql.antt =====
-- internal/modvalidate/sqlscan.go: the tokenizer and the rule table of module migrations.
pub mod Bytes
pub mod Tokens
pub mod Lexed
pub mod Printed
pub mod Refs
pub mod Clauses
pub mod Scan
pub mod Checked
pub mod Fence
pub mod Listed
pub mod Panics
pub mod Targets
