-- ===== src/Generated/Server.antt =====
-- web-rpc-macro/src/lib.rs, `struct_server`: the `execute` that is generated for a trait, where no abort comes
-- between. The implementation is a function for each method; a stream is the items that it yields.
use web_rpc.Prelude.{inl, inr, List, [], ◌∷◌, map, Outcome, ok, panic, ◌>>=◌}
use web_rpc.Wire.Platform.{Platform}
use web_rpc.Wire.Value
use web_rpc.Wire.Value.{Route, new_arrays}
use web_rpc.Wire.Params.{Arguments, Fields, decode_params}
use web_rpc.Generated.Enums.{
  Output, notify, value, stream, Signature, Request, Response, Nth, first, later, response_of,
}

module _ (p : Platform) where
  open p use {Js}

  abbrev pub Returned : Output p → Type 0
  Returned notify = Unit
  Returned (value r) = Value.Value p r
  Returned (stream r) = List (Value.Value p r)

  -- A type that implements the trait.
  abbrev pub Implementation : List (Signature p) → Type 0
  Implementation [] = Unit
  Implementation (m ∷ ms) = (Arguments p m.params → Returned m.output) × Implementation ms

  -- The method of an implementation.
  unfoldable pub method_of :
      {m : Signature p} {ms : List (Signature p)}
      → Nth p m ms
      → Implementation ms
      → Arguments p m.params
      → Returned m.output
  method_of first (f, fs) = f
  method_of (later n) (f, fs) = method_of n fs

  -- A response with its posted and its transferred values.
  abbrev pub Outgoing : List (Signature p) → Type 0
  Outgoing ms = Response p ms × List Js × List Js

  pub data Executed (ms : List (Signature p)) : Type 0 where
    notified : Executed ms
    answered : Outgoing ms → Executed ms
    streamed : List (Outgoing ms) → Executed ms

  module _ {m : Signature p} {ms : List (Signature p)} (n : Nth p m ms) where
    -- `encode_outgoing`.
    unfoldable pub outgoing : (r : Route p) → Value.Value p r → Outgoing ms
    outgoing r v =
        let encoded = Value.encode p r v (new_arrays p) in
        (response_of p n encoded.0, encoded.1.post, encoded.1.transfer)

    unfoldable pub answer : (o : Output p) → Returned o → Executed ms
    unfolding outgoing
    answer notify v = notified
    answer (value r) v = answered (outgoing r v)
    answer (stream r) vs = streamed (map (outgoing r) vs)

    -- The arm of a method: its arguments decoded, its call, and its body.
    unfoldable pub handle :
        (Arguments p m.params → Returned m.output)
        → Fields p m.params
        → List Js
        → Outcome (Executed ms)
    handle f fields js_args =
        decode_params p m.params fields js_args >>= λ (vs, rest). ok (answer m.output (f vs))

  -- The `match` on the request; `place` takes the methods that are left to their places in the trait.
  unfoldable pub match_request :
      {all : List (Signature p)} (ms : List (Signature p))
      → ((m : Signature p) → Nth p m ms → Nth p m all)
      → Implementation ms
      → Request p ms
      → List Js
      → Outcome (Executed all)
  match_request [] place fs phantom js_args = panic
  match_request (m ∷ ms) place (f, fs) (inl fields) js_args =
      handle (place m first) f fields js_args
  match_request (m ∷ ms) place (f, fs) (inr request) js_args =
      match_request ms (λ k n. place k (later n)) fs request js_args

  unfoldable pub execute :
      {ms : List (Signature p)} → Implementation ms → Request p ms → List Js → Outcome (Executed ms)
  unfolding match_request
  execute {ms} fs request js_args = match_request ms (λ k n. n) fs request js_args
