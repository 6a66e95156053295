-- ===== src/Service.antt =====
-- web-rpc/src/service.rs and the `execute` that the service macro generates: the server half.
pub mod Task
pub mod Execute
pub mod Steps
pub mod Answers
pub mod Streams
pub mod EndMarkers
mod Tests
