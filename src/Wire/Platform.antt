-- ===== src/Wire/Platform.antt =====
-- What the generated code uses of other crates: postcard, serde's types, wasm-bindgen's casts.
use web_rpc.Prelude.{Text, ◌≡◌, Option, some}

-- `Leaf` ranges over the postcard-encoded types of a signature, `Class` over the Javascript types
-- inside `Post` and `Transfer`, and `Js` holds the values of the Javascript heap.
pub record Platform : Type 1 where
  pub Leaf : Type 0
  pub Payload : Leaf → Type 0
  pub to_allocvec : (l : Leaf) → Payload l → Text
  pub from_bytes : (l : Leaf) → Text → Option (Payload l)
  pub Js : Type 0
  pub undefined : Js
  pub Class : Type 0
  pub Instance : Class → Type 0
  pub js_value : (c : Class) → Instance c → Js
  pub dyn_into : (c : Class) → Js → Option (Instance c)
  -- postcard reads back what it wrote, and a cast to its own class gives the value.
  pub from_bytes-to_allocvec : (l : Leaf) (v : Payload l) → from_bytes l (to_allocvec l v) ≡ some v
  pub dyn_into-js_value : (c : Class) (v : Instance c) → dyn_into c (js_value c v) ≡ some v
