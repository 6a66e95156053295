-- ===== src/Wire/Value.antt =====
-- web-rpc-macro/src/lib.rs, `emit_encode` and `emit_decode`: the code generated for one type. A
-- `Route` is a signature type as the two functions walk it.
use web_rpc.Prelude.{
  ◌⊎◌, inl, inr, Bool, Option, none, some, List, [], ◌∷◌, ◌++◌, Outcome, ok, panic, ◌>>=◌,
  if◌then◌else◌,
}
use web_rpc.Wire.Arg.{WireArg}
use web_rpc.Wire.Platform.{Platform}

module _ (p : Platform) where
  open p use {
    Leaf, Payload, to_allocvec, from_bytes, Js, undefined, Class, Instance, js_value, dyn_into,
  }

  -- `option T`, `result T E`, `Post<T>` (not transferred) or `Transfer<T>`, and any other type.
  pub data Route : Type 0 where
    option : Route → Route
    result : Route → Route → Route
    js : Bool → Class → Route
    leaf : Leaf → Route

  -- The Rust values of a signature type; `inl` is `Ok`.
  abbrev pub Value : Route → Type 0
  Value (option r) = Option (Value r)
  Value (result r s) = Value r ⊎ Value s
  Value (js transfer c) = Instance c
  Value (leaf l) = Payload l

  -- The Javascript arrays that the generated code pushes onto.
  pub record Arrays : Type 0 where
    pub post : List Js
    pub transfer : List Js

  abbrev pub new_arrays : Arrays
  new_arrays = record { post = []; transfer = [] }

  abbrev wrap : (WireArg → WireArg) → WireArg × Arrays → WireArg × Arrays
  wrap f (w, a) = (f w, a)

  unfoldable pub encode : (r : Route) → Value r → Arrays → WireArg × Arrays
  encode (option r) (some v) a = wrap WireArg.some (encode r v a)
  encode (option r) none a = (WireArg.none, a)
  encode (result r s) (inl v) a = wrap WireArg.ok (encode r v a)
  encode (result r s) (inr e) a = wrap WireArg.err (encode s e a)
  encode (js transfer c) v a = (
    WireArg.js,
    record {
      post = a.post ++ js_value c v ∷ [];
      transfer = if transfer then a.transfer ++ js_value c v ∷ [] else a.transfer;
    },
  )
  encode (leaf l) v a = (WireArg.bytes (to_allocvec l v), a)

  -- `Array.prototype.shift`.
  unfoldable pub shift : List Js → Js × List Js
  shift [] = (undefined, [])
  shift (x ∷ xs) = (x, xs)

  abbrev pub unwrap {ℓ} : {A : Type ℓ} → Option A → Outcome A
  unwrap none = panic
  unwrap (some a) = ok a

  unfoldable pub take_js : (c : Class) → List Js → Outcome (Instance c × List Js)
  unfolding shift
  take_js c vs = do let taken = shift vs; v ← unwrap (dyn_into c taken.0); ok (v, taken.1)

  unfoldable pub decode : (r : Route) → WireArg → List Js → Outcome (Value r × List Js)
  unfolding take_js
  decode (option r) (WireArg.some w) vs = decode r w vs >>= λ (v, rest). ok (some v, rest)
  decode (option r) WireArg.none vs = ok (none, vs)
  decode (option r) _ vs = panic
  decode (result r s) (WireArg.ok w) vs = decode r w vs >>= λ (v, rest). ok (inl v, rest)
  decode (result r s) (WireArg.err w) vs = decode s w vs >>= λ (e, rest). ok (inr e, rest)
  decode (result r s) _ vs = panic
  decode (js transfer c) WireArg.js vs = take_js c vs
  decode (js transfer c) _ vs = panic
  decode (leaf l) (WireArg.bytes b) vs = unwrap (from_bytes l b) >>= λ v. ok (v, vs)
  decode (leaf l) _ vs = panic
