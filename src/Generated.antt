-- ===== src/Generated.antt =====
-- web-rpc-macro/src/lib.rs, `struct_client` and `struct_server`: the code generated for a trait as a whole.
pub mod Enums
pub mod Client
pub mod Server
pub mod Trait
pub mod Calls
pub mod Whole
pub mod Streams
pub mod Errors
pub mod Tests
mod StreamTests
