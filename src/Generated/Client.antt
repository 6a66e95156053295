-- ===== src/Generated/Client.antt =====
-- web-rpc-macro/src/lib.rs, `struct_client`: what a method of the generated client sends, and how it unpacks
-- what comes back.
use web_rpc.Prelude.{Option, none, some, List, Outcome, ok, panic, ◌>>=◌}
use web_rpc.Wire.Arg.{WireArg}
use web_rpc.Wire.Platform.{Platform}
use web_rpc.Wire.Value
use web_rpc.Wire.Value.{Route, Arrays, new_arrays}
use web_rpc.Wire.Params.{Arguments, encode_params}
use web_rpc.Generated.Enums.{Signature, Request, Response, Nth, request_of, wire_of}

module _ (p : Platform) where
  open p use {Js}

  -- The request, and the arrays that its encodings have filled.
  unfoldable pub client_request :
      {m : Signature p} {ms : List (Signature p)}
      → Nth p m ms
      → Arguments p m.params
      → Request p ms × Arrays p
  client_request {m} n vs =
      let encoded = encode_params p m.params vs (new_arrays p) in
      (request_of p n encoded.0, encoded.1)

  abbrev pub expect_wire : Option WireArg → Outcome WireArg
  expect_wire none = panic
  expect_wire (some w) = ok w

  -- The closure `unpack`.
  unfoldable pub unpack :
      {m : Signature p} {ms : List (Signature p)}
      → Nth p m ms
      → (r : Route p) → Response p ms × List Js
      → Outcome (Value.Value p r)
  unpack n r (response, js_values) = do
    w ← expect_wire (wire_of p n response)
    (v, rest) ← Value.decode p r w js_values
    ok v
