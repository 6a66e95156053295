-- ===== src/Lib.antt =====
-- web-rpc: remote calls between Javascript contexts, by messages over a port.
--
-- A service trait is turned by a macro (web-rpc-macro/src/lib.rs) into a client, a server and a
-- description. A client encodes arguments and posts a request (web-rpc/src/client.rs); the dispatcher
-- of the other end (web-rpc/src/lib.rs) hands it to the server (web-rpc/src/service.rs), which executes
-- it and posts a response, or the items of a stream and an end marker; the dispatcher of the first end
-- hands those to the future or stream that waits for them. From the description, web-rpc/src/js
-- renders a Javascript client and its Typescript declarations at compile time.
--
-- - Prelude: shared names; Outcome is a result or a panic, Dict a HashMap as an association list.
-- - Wire: web-rpc/src/codec.rs, and the code that emit_encode and emit_decode generate. A Route is a
--   signature type as the macro walks it. postcard and the Javascript casts are the record Platform.
-- - Session: one interface. Message (post_header, post_message, take_bytes), State (the maps of
--   client::State, whose senders are names of channels in a store), Dispatcher (the branches of
--   assemble), Client (send, request, stream, AbortOnDrop, RequestFuture, StreamReceiver), World (all
--   histories of an interface as a step relation), Build (Builder and its three ways to build). Polls,
--   Frame, Local and the other files hold proofs. The formats of postcard are the record Formats; client
--   and server of an interface are of one trait.
-- - Service: the server. Task (one function for each arm of the select! in task), Execute (how the
--   future that struct_server generates may end), Steps (all histories of a server).
-- - Handshake: web-rpc/src/interface.rs. Interface (Interface::new at both ends, with the packets
--   between them), Packets, Posting and Arrival (what the two ends keep to), Readiness and Progress
--   (what the handshake promises).
-- - Macro: web-rpc-macro/src/lib.rs. Case and Convert (the name conversions, over code points; the case
--   of a code point outside ASCII is the record Unicode), Syntax (the types and paths of Rust that the
--   macro looks at), Types (stream_item_type to is_borrowed_serde_ref), Emit (emit_desc, and the Route
--   along which emit_encode and emit_decode walk a type), Attributes (cfg), Method (RpcMethod and its
--   parser, on the pieces that syn parses), Generate (enum_request, enum_response, const_description),
--   Endpoint (js::endpoint!). What the compiler finds for a type that the macro names is the record
--   Resolution, and which cfg predicates hold is a function. Sizes, Described, Inline, Checks,
--   Numbering, Given and Expand hold proofs.
-- - Exchange: one call from end to end, over both interfaces. Posts (what a server posts, as the other end
--   reads it), Streaming (one stream from end to end).
-- - System: two ends of a channel. Duo (what either end does, in any order, and a port that delivers what
--   was posted late, in another order or twice), Sent, Safe and Built (proofs).
-- - Generated: what struct_client and struct_server generate for a trait as a whole. Enums (the enums of
--   requests and responses, as sums), Client and Server (a method of the client, and execute, on an
--   implementation that is a function for each method), Trait (trait_service on pointers), Whole and
--   Streams (over Session and Service; the formats of postcard are the record Codec), Calls and Errors
--   (proofs).
-- - Js: Output and Names (writer.rs; Digits on put_usize), Schema (postcard-schema's description of a
--   type), Describe (describe.rs, js/mod.rs), JsNames (JsName), Decls and Collect (decls.rs), Code and CodeModule
--   (code.rs), Dts, DtsMethods and DtsModule (dts.rs).
--   A renderer is a Pass, a function of the output buffer that may panic; Render says what a pass can
--   do, Resolves which references the renderers make, Height what depth a comparison of types needs.
--
-- A sequence number is a u32, and the addition on it wraps around, so that a call may take the number of
-- a live request; a theorem on a live request that needs the contrary has it as a premise, `Unshared`.
-- Sizes of buffers and lists have no bound. The fuel of put_usize is one round for each unit of the value and one more, where the code does
-- one for each digit. That of emit_desc and route is the size of the type, and the types inside a type are
-- smaller. A schema is a finite tree, as the const evaluation of the code needs.
-- A poll of the dispatcher takes all messages that have arrived. Channels, futures and select! are
-- those of the futures crates: a select! takes any ready branch, so a property holds for every choice.
--
-- Not modelled: wakers; the port and the wrappers (web_sys); the parsers of syn; the shell
-- web-rpc/js/endpoint.mjs.
pub mod Prelude
pub mod Wire
pub mod Handshake
pub mod Session
pub mod Service
pub mod Exchange
pub mod Generated
pub mod System
pub mod Js
pub mod Macro
