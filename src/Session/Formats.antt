-- ===== src/Session/Formats.antt =====
-- What the runtime uses of other crates: postcard's encodings of the header and the two enums that
-- the service macro generates, and the values of the Javascript heap.
use web_rpc.Prelude.{ℕ, Text, ◌≡◌, Option, some}

-- `MessageHeader` of web-rpc/src/lib.rs: each message starts with one.
pub data MessageHeader : Type 0 where
  request abort response stream_item stream_end : ℕ → MessageHeader

pub record Formats : Type 1 where
  pub Js : Type 0
  pub Request : Type 0
  pub Response : Type 0
  pub write_header : MessageHeader → Text
  pub read_header : Text → Option MessageHeader
  pub write_request : Request → Text
  pub write_response : Response → Text
  pub read_response : Text → Option Response
  -- postcard reads back what it wrote.
  pub read-write_header : (h : MessageHeader) → read_header (write_header h) ≡ some h
  pub read-write_response : (r : Response) → read_response (write_response r) ≡ some r
