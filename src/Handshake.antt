-- ===== src/Handshake.antt =====
-- web-rpc/src/interface.rs: how the two ends of a channel find that the other one listens.
pub mod Interface
pub mod Packets
pub mod Posting
pub mod Arrival
pub mod Readiness
pub mod Progress
mod Tests
