-- ===== src/Transport.antt =====
-- src/transport: the tables that a node routes by. An `Instant` is a number (of nanoseconds), and a
-- read of the clock is an argument; all reads within one pass over a map are one instant.
pub mod PacketCache
pub mod ReverseTable
pub mod AnnounceLimits
pub mod PathTable
pub mod PathRequests
pub mod AnnounceTable
pub mod Blackhole
pub mod LinkTable
