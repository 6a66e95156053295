-- ===== src/Generated/Calls.antt =====
-- A call of the generated client, executed by the generated server.
use web_rpc.Prelude.{◌≡◌, refl, sym, ap, ◌∙◌, some, List, [], append-nil, ok}
use web_rpc.Wire.Arg.{WireArg}
use web_rpc.Wire.Platform.{Platform}
use web_rpc.Wire.Value
use web_rpc.Wire.Value.{Route, new_arrays}
use web_rpc.Wire.Params.{Arguments, Fields, encode_params}
use web_rpc.Wire.RoundTrip.{decode-encode, decode_params-encode_params}
use web_rpc.Generated.Enums.{Signature, Nth, first, later, request_of, response_of, wire_of}
use web_rpc.Generated.Client.{client_request, unpack}
use web_rpc.Generated.Server.{
  Implementation, method_of, outgoing, answer, handle, match_request, execute,
}

module _ (p : Platform) where
  open p use {Js}

  wire_of-response_of :
      {m : Signature p} {ms : List (Signature p)} (n : Nth p m ms) (w : WireArg)
      → wire_of p n (response_of p n w) ≡ some w
  unfolding wire_of response_of
  wire_of-response_of first w = refl
  wire_of-response_of (later n) w = wire_of-response_of n w

  -- The client unpacks from a response, whatever values stand behind it, what the server has encoded.
  pub unpack-outgoing :
      {m : Signature p} {ms : List (Signature p)} (n : Nth p m ms) (r : Route p)
      (v : Value.Value p r)
      → let sent = outgoing p n r v in unpack p n r (sent.0, sent.1) ≡ ok v
  unfolding unpack outgoing
  unpack-outgoing n r v =
      let encoded = Value.encode p r v (new_arrays p) in
      let decoded : Value.decode p r encoded.0 encoded.1.post ≡ ok (v, []) =
        ap (Value.decode p r encoded.0) (sym (append-nil encoded.1.post))
        ∙ decode-encode p r v [] in
      rw (wire_of-response_of n encoded.0, decoded)

  match_request-request_of :
      {all : List (Signature p)} {m : Signature p} {ms : List (Signature p)} (n : Nth p m ms)
      (place : (k : Signature p) → Nth p k ms → Nth p k all) (fs : Implementation p ms)
      (fields : Fields p m.params) (js_args : List Js)
      → match_request p ms place fs (request_of p n fields) js_args
        ≡ handle p (place m n) (method_of p n fs) fields js_args
  unfolding match_request request_of method_of
  match_request-request_of first place (f, fs) fields js_args = refl
  match_request-request_of (later n) place (f, fs) fields js_args =
      match_request-request_of n (λ k i. place k (later i)) fs fields js_args

  -- The server executes a request of the client by the same method of its implementation, on the arguments
  -- that the client was given.
  pub execute-client_request :
      {m : Signature p} {ms : List (Signature p)} (n : Nth p m ms) (fs : Implementation p ms)
      (vs : Arguments p m.params)
      → let sent = client_request p n vs in
        execute p fs sent.0 sent.1.post ≡ ok (answer p n m.output (method_of p n fs vs))
  unfolding execute client_request handle
  execute-client_request {m} n fs vs =
      let sent = encode_params p m.params vs (new_arrays p) in
      match_request-request_of n (λ k i. i) fs sent.0 sent.1.post
      ∙ rw (decode_params-encode_params p m.params vs)
