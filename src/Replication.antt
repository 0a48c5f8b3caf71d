-- ===== src/Replication.antt =====
-- pkg/replication/server.go: the server that streams PostgreSQL's changes to MySQL's replication
-- clients. Events are those of Encoder.Events.
pub mod Changes
pub mod Events
pub mod Clients
pub mod Streamer
mod Tests
