-- ===== src/Generated/Trait.antt =====
-- web-rpc-macro/src/lib.rs, `trait_service`: the implementations of the trait that it generates for pointers to a
-- type that implements it. An `async` method is awaited there, which changes no value.
use web_rpc.Prelude.{◌≡◌, refl, ap, List, [], ◌∷◌}
use web_rpc.Wire.Platform.{Platform}
use web_rpc.Wire.Params.{Arguments}
use web_rpc.Generated.Enums.{Signature, Request, Nth, first, later}
use web_rpc.Generated.Server.{Returned, Implementation, method_of, execute}

-- The pointers that get an implementation.
pub data Pointer (T : Type 0) : Type 0 where
  arc box rc : T → Pointer T

-- `Deref`.
abbrev pub deref : {T : Type 0} → Pointer T → T
deref (arc x) = x
deref (box x) = x
deref (rc x) = x

module _ (p : Platform) where
  -- An `impl` block, from a body for each method.
  unfoldable pub impl_block :
      (ms : List (Signature p))
      → ((m : Signature p) → Nth p m ms → Arguments p m.params → Returned p m.output)
      → Implementation p ms
  impl_block [] body = tt
  impl_block (m ∷ ms) body = (body m first, impl_block ms (λ k n. body k (later n)))

  -- The implementation for a pointer, where `T` has one: `T::#ident(self, ..)` for each method.
  unfoldable pub forwards :
      {T : Type 0} (ms : List (Signature p))
      → (T → Implementation p ms)
      → Pointer T
      → Implementation p ms
  forwards ms implementation self =
      impl_block ms (λ m n vs. method_of p n (implementation (deref self)) vs)

  impl_block-method_of :
      (ms : List (Signature p)) (fs : Implementation p ms)
      → impl_block ms (λ m n. method_of p n fs) ≡ fs
  unfolding impl_block method_of
  impl_block-method_of [] fs = refl
  impl_block-method_of (m ∷ ms) (f, fs) =
      ap (λ (x : Implementation p ms). (f, x)) (impl_block-method_of ms fs)

  -- The generated server treats a pointer to an implementation as it does the implementation, whatever the
  -- request.
  pub execute-forwards :
      {T : Type 0} {ms : List (Signature p)} (implementation : T → Implementation p ms)
      (self : Pointer T) (request : Request p ms) (js_args : List p.Js)
      → execute p (forwards ms implementation self) request js_args
        ≡ execute p (implementation (deref self)) request js_args
  unfolding forwards
  execute-forwards {ms} implementation self request js_args =
      ap (λ fs. execute p fs request js_args)
        (impl_block-method_of ms (implementation (deref self)))
