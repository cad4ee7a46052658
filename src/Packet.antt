-- ===== src/Packet.antt =====
-- src/packet.rs: the packet header, the contexts, packets and their hashes.
pub mod Header
pub mod Context
pub mod Types
pub mod Meta
pub mod Mdu
mod Tests
