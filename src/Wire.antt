-- ===== src/Wire.antt =====
-- web-rpc/src/codec.rs, and the encoders and decoders that `emit_encode` and `emit_decode` of
-- web-rpc-macro/src/lib.rs generate for a signature.
pub mod Arg
pub mod Platform
pub mod Value
pub mod Params
pub mod RoundTrip
pub mod Strict
pub mod Tests
