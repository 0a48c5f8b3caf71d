-- ===== src/Rewrite.antt =====
-- pkg/sqlrewrite: the rewriting of MySQL's SQL into PostgreSQL's, where it works on texts.
pub mod Placeholders
pub mod Statements
pub mod Accounts
pub mod Types
pub mod Columns
mod Tests
