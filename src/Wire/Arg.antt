-- ===== src/Wire/Arg.antt =====
-- web-rpc/src/codec.rs: the representation of one argument or return value on the wire.
use web_rpc.Prelude.{ℕ, Text}

pub data WireArg : Type 0 where
  js : WireArg
  bytes : Text → WireArg
  none : WireArg
  some ok err : WireArg → WireArg

-- The slots of the message array that a wire argument stands for.
abbrev pub slots : WireArg → ℕ
slots WireArg.js = 1
slots (WireArg.bytes b) = 0
slots WireArg.none = 0
slots (WireArg.some w) = slots w
slots (WireArg.ok w) = slots w
slots (WireArg.err w) = slots w
