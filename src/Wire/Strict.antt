-- ===== src/Wire/Strict.antt =====
-- What `decode` accepts: the wire arguments of the type's own shape, each at its number of slots.
use web_rpc.Prelude.{
  ℕ, zero, suc, ◌≡◌, List, [], ◌∷◌, Outcome, ok, panic, ◌>>=◌, some, inl, inr, arith,
}
use web_rpc.Wire.Arg.{WireArg, slots}
use web_rpc.Wire.Platform.{Platform}
use web_rpc.Wire.Value.{Route, Value, decode, take_js, option, result, js, leaf}

mapped-eq-ok {ℓ κ μ} :
    {A : Type ℓ} {B : Type κ} {C : Type μ} (m : Outcome (A × C)) (f : A → B) {b : B} {c : C}
    → ◌>>=◌ {B = B × C} m (λ (a, c'). ok (f a, c')) ≡ ok (b, c)
    → (a : A) × (m ≡ ok (a, c))
mapped-eq-ok (ok (a, c)) f h = (a, cc)
mapped-eq-ok panic f h = cc

-- What is left of an array after `n` shifts.
abbrev pub after_shifts {ℓ} : {A : Type ℓ} → ℕ → List A → List A
after_shifts zero vs = vs
after_shifts (suc n) [] = []
after_shifts (suc n) (v ∷ vs) = after_shifts n vs

module _ (p : Platform) where
  open p use {Js, Class}

  -- A wire argument of the shape of a type.
  abbrev pub Fits : Route p → WireArg → Type 0
  Fits (option r) (WireArg.some w) = Fits r w
  Fits (option r) WireArg.none = Unit
  Fits (option r) _ = ⊥
  Fits (result r s) (WireArg.ok w) = Fits r w
  Fits (result r s) (WireArg.err w) = Fits s w
  Fits (result r s) _ = ⊥
  Fits (js t c) WireArg.js = Unit
  Fits (js t c) _ = ⊥
  Fits (leaf l) (WireArg.bytes b) = Unit
  Fits (leaf l) _ = ⊥

  take_js-rest :
      (c : Class) (vs : List Js) {v : p.Instance c} {rest : List Js}
      → take_js p c vs ≡ ok (v, rest)
      → rest ≡ after_shifts 1 vs
  unfolding take_js
  take_js-rest c [] h = ground arith
  take_js-rest c (x ∷ vs) h = ground arith

  -- A decoder that does not panic was given a wire argument of the shape of its type, and takes one
  -- Javascript value off the array for each slot of that argument.
  pub decode-ok :
      (r : Route p) (w : WireArg) (vs : List Js) {v : Value p r} {rest : List Js}
      → decode p r w vs ≡ ok (v, rest)
      → Fits r w × (rest ≡ after_shifts (slots w) vs)
  unfolding decode
  decode-ok (option r) (WireArg.some w) vs h =
      let (v, e) = mapped-eq-ok (decode p r w vs) some h in decode-ok r w vs {v = v} e
  decode-ok (option r) WireArg.none vs h = (tt, cc)
  decode-ok (option r) _ vs h = cc
  decode-ok (result r s) (WireArg.ok w) vs h =
      let (v, e) = mapped-eq-ok (decode p r w vs) inl h in decode-ok r w vs {v = v} e
  decode-ok (result r s) (WireArg.err w) vs h =
      let (v, e) = mapped-eq-ok (decode p s w vs) inr h in decode-ok s w vs {v = v} e
  decode-ok (result r s) _ vs h = cc
  decode-ok (js t c) WireArg.js vs h = (tt, take_js-rest c vs h)
  decode-ok (js t c) _ vs h = cc
  decode-ok (leaf l) (WireArg.bytes b) vs h = (tt, ground arith)
  decode-ok (leaf l) _ vs h = cc
