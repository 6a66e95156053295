-- ===== src/Macro.antt =====
-- web-rpc-macro/src/lib.rs: what the macros read, the names that they derive, and what they generate.
pub mod Case
pub mod Convert
pub mod Camel
pub mod Description
pub mod Syntax
pub mod Types
pub mod Emit
pub mod Sizes
pub mod Described
pub mod Attributes
pub mod Method
pub mod Checks
pub mod Generate
pub mod Numbering
pub mod Endpoint
pub mod Inline
pub mod Given
pub mod Expand
pub mod Tests
mod EmitTests
mod EndpointTests
