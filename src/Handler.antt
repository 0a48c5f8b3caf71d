-- ===== src/Handler.antt =====
-- pkg/protocol/mysql/handler.go: the handler of one client's connection. Connection is the
-- connection to PostgreSQL, Names the names cut out of statements, Query is `HandleQuery` with
-- Control and Variables for the statements that it answers itself, Prepared the prepared
-- statements, Commands the other commands of the protocol, and Fields the lists of fields.
pub mod State
pub mod Connection
pub mod Names
pub mod Variables
pub mod Control
pub mod Query
pub mod Prepared
pub mod Commands
pub mod Fields
mod Tests
