-- ===== src/Mapper.antt =====
-- pkg/mapper: Errors is errors.go, Kinds the tables of types.go, Variables is variables.go and Show
-- is show.go.
pub mod Errors
pub mod Kinds
pub mod Variables
pub mod Show
mod Tests
