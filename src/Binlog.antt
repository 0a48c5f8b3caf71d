-- ===== src/Binlog.antt =====
-- pkg/binlog/binlog.go: the proxy's own binary log, its writer and its record formats.
pub mod Event
pub mod Serial
pub mod Disk
pub mod Writer
mod Tests
