-- ===== src/Iface.antt =====
-- src/iface: the framing of packets on byte streams, and the pacing of clients.
pub mod Hdlc
pub mod Ifac
pub mod Kiss
pub mod Message
pub mod ReconnectPacer
