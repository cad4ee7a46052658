-- ===== src/Transport/AnnounceTable.antt =====
-- src/transport/announce_table.rs: the announces that this node sends on, and the answers to path
-- requests, with the archive of the announces that it has sent.
pub mod Entry
pub mod Cache
pub mod Table
pub mod Budget
pub mod Archive
pub mod Bounds
pub mod Responses
pub mod Answers
pub mod Echoes
mod Tests
