-- ===== src/Generated/Errors.antt =====
-- web-rpc-macro/src/lib.rs, `struct_client` and `struct_server`: what the generated code does with a response
-- of another method, and with the hidden variant of the request.
use web_rpc.Prelude.{◌≡◌, ◌≢◌, refl, ℕ, suc, inl, inr, none, List, [], ◌∷◌, panic, ap}
use web_rpc.Wire.Platform.{Platform}
use web_rpc.Wire.Value.{Route}
use web_rpc.Generated.Enums.{Signature, Response, Nth, first, later, wire_of}
use web_rpc.Generated.Client.{unpack}

module _ (p : Platform) where
  open p use {Js}

  -- The number of a method's variant.
  unfoldable pub place : {m : Signature p} {ms : List (Signature p)} → Nth p m ms → ℕ
  place first = 0
  place (later n) = suc (place n)

  -- The variant that a response is of.
  unfoldable pub variant : (ms : List (Signature p)) → Response p ms → ℕ
  variant [] r = elim r [ ]
  variant (m ∷ ms) (inl w) = 0
  variant (m ∷ ms) (inr r) = suc (variant ms r)

  wire_of-other :
      {m : Signature p} {ms : List (Signature p)} (n : Nth p m ms) (response : Response p ms)
      → place n ≢ variant ms response
      → wire_of p n response ≡ none
  unfolding place variant wire_of
  wire_of-other first (inl w) other = absurd (other refl)
  wire_of-other first (inr r) other = refl
  wire_of-other (later n) (inl w) other = refl
  wire_of-other (later n) (inr r) other = wire_of-other n r (λ e. other (ap suc e))

  -- A future of the generated client panics on the response of another method, whatever it holds.
  pub unpack-other :
      {m : Signature p} {ms : List (Signature p)} (n : Nth p m ms) (r : Route p)
      (response : Response p ms) (js_values : List Js)
      → place n ≢ variant ms response
      → unpack p n r (response, js_values) ≡ panic
  unfolding unpack
  unpack-other n r response js_values other = rw (wire_of-other n response other)
