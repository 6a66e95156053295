-- ===== src/System.antt =====
-- Two ends of a channel, each with a client and a server: web-rpc/src/{lib,client,service}.rs as a whole.
pub mod Duo
pub mod Sent
pub mod Safe
pub mod Built
mod Tests
