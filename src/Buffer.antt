-- ===== src/Buffer.antt =====
-- src/buffer.rs: the three byte buffers. Sizes are `usize`; no sum of two sizes here reaches the
-- word's limit, since both are lengths of slices that exist in memory.
pub mod Output
pub mod Input
pub mod Static
pub mod Append
pub mod Reading
pub mod Bounded
pub mod Writers
pub mod Readers
mod Tests
