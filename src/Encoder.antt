-- ===== src/Encoder.antt =====
-- pkg/replication/binlog_encoder.go: MySQL binlog events as bytes for replication clients.
pub mod Value
pub mod Integers
pub mod Strings
pub mod Temporal
pub mod Decimal
pub mod Columns
pub mod Events
mod Tests
