-- ===== src/Generated/Enums.antt =====
-- The enums of requests and responses that web-rpc-macro/src/lib.rs generates, as values.
use web_rpc.Prelude.{◌⊎◌, inl, inr, Bool, Option, none, some, List, [], ◌∷◌}
use web_rpc.Wire.Arg.{WireArg}
use web_rpc.Wire.Platform.{Platform}
use web_rpc.Wire.Value.{Route}
use web_rpc.Wire.Params.{Param, Fields}

module _ (p : Platform) where
  -- `MethodOutput`, with the route of its type.
  pub data Output : Type 0 where
    notify : Output
    value stream : Route p → Output

  pub record Signature : Type 0 where
    pub params : List (Param p)
    pub output : Output
    pub is_async : Bool

  -- A variant for each method, and the hidden one behind them, which holds only a lifetime.
  abbrev pub Request : List Signature → Type 0
  Request [] = Unit
  Request (m ∷ ms) = Fields p m.params ⊎ Request ms

  abbrev pub Response : List Signature → Type 0
  Response [] = ⊥
  Response (m ∷ ms) = WireArg ⊎ Response ms

  -- A method of a trait, by its place.
  pub data Nth (m : Signature) : List Signature → Type 0 where
    first : {ms : List Signature} → Nth m (m ∷ ms)
    later : {k : Signature} {ms : List Signature} → Nth m ms → Nth m (k ∷ ms)

  module _ {m : Signature} where
    unfoldable pub request_of : {ms : List Signature} → Nth m ms → Fields p m.params → Request ms
    request_of first fields = inl fields
    request_of (later n) fields = inr (request_of n fields)

    unfoldable pub response_of : {ms : List Signature} → Nth m ms → WireArg → Response ms
    response_of first w = inl w
    response_of (later n) w = inr (response_of n w)

    -- The `let .. else` on the variant of the method.
    unfoldable pub wire_of : {ms : List Signature} → Nth m ms → Response ms → Option WireArg
    wire_of first (inl w) = some w
    wire_of first (inr r) = none
    wire_of (later n) (inl w) = none
    wire_of (later n) (inr r) = wire_of n r
