-- ===== src/Transport/PathTable.antt =====
-- src/transport/path_table.rs: the table of next hops. Bit rates are `f64` values: a type that is
-- a parameter, with its test `>`.
pub mod Entry
pub mod Table
pub mod Routing
pub mod Forwarding
pub mod Updates
pub mod Replay
pub mod Stale
pub mod Maintenance
mod Tests
