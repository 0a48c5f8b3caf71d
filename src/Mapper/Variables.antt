-- ===== src/Mapper/Variables.antt =====
-- pkg/mapper/variables.go: MySQL's variables by those of PostgreSQL, with the values that SET GLOBAL
-- has left. A connection is a state of the driver.
pub mod Table
pub mod Access
pub mod ReadBack
