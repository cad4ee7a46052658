-- ===== src/Channel.antt =====
-- src/channel.rs: ordered, reliable messages over a link. The tasks and their queues are not modelled,
-- the handlers that they call are.
pub mod Envelope
pub mod Inbound
pub mod Params
pub mod Outbound
pub mod Order
pub mod Arrivals
pub mod Window
pub mod InFlight
pub mod Delivery
pub mod Status
pub mod Proofs
mod Tests
