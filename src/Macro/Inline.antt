-- ===== src/Macro/Inline.antt =====
-- The arguments that travel in the request itself: the description, the request enum and the generated
-- bodies take the same ones.
use web_rpc.Prelude.{◌≡◌, refl, ap, ◌∙◌, inl, inr, Bool, true, false, not, Bool-cases}
use web_rpc.Js.Describe.{Desc}
use web_rpc.Wire.Platform.{Platform}
use web_rpc.Wire.Params.{Param, borrowed, routed}
use web_rpc.Macro.Case.{Unicode}
use web_rpc.Macro.Syntax.{Ty, path, reference, slice, impl_trait, other}
use web_rpc.Macro.Types.{
  type_arguments, option_inner_type, result_inner_types, js_inner_type, is_borrowed_serde_ref,
}
use web_rpc.Macro.Emit.{
  Wrapping, option, result, js, plain, wrapping, Resolution, desc_by, emit_desc, param,
}
use web_rpc.Macro.Sizes.{emit_desc-route_eq}
use web_rpc.Macro.Method.{Argument}
use web_rpc.Macro.Generate.{FieldType, wire_arg, field, describe_argument}

abbrev pub is_inline : Desc → Bool
is_inline (Desc.inline schema) = true
is_inline _ = false

abbrev pub is_wire_arg : FieldType → Bool
is_wire_arg wire_arg = true
is_wire_arg (FieldType.borrowed ty) = false

abbrev pub is_borrowed : {p : Platform} → Param p → Bool
is_borrowed (borrowed l) = true
is_borrowed (routed r) = false

borrowed-plain : (ty : Ty) → is_borrowed_serde_ref ty ≡ true → wrapping ty ≡ plain
unfolding is_borrowed_serde_ref wrapping option_inner_type result_inner_types js_inner_type
    type_arguments
borrowed-plain (reference m t) h = refl
borrowed-plain (path q) h = cc
borrowed-plain (slice t) h = cc
borrowed-plain (impl_trait bs) h = cc
borrowed-plain (other n) h = cc

module _ (u : Unicode) (p : Platform) (c : Resolution p) where
  owned_by :
      (f : Ty → Desc) (ty : Ty) (w : Wrapping)
      → is_borrowed_serde_ref ty ≡ false
      → is_inline (desc_by p c f ty w) ≡ false
  owned_by f ty (option t) h = refl
  owned_by f ty (result t e) h = refl
  owned_by f ty (js t b) h = refl
  owned_by f ty plain h = rw h

  is_inline_eq : (ty : Ty) → is_inline (emit_desc p c ty) ≡ is_borrowed_serde_ref ty
  is_inline_eq ty = elim (Bool-cases (is_borrowed_serde_ref ty)) [
    | inl is ↦
        ap is_inline (
          (emit_desc-route_eq p c ty).0
          ∙ ap (desc_by p c (emit_desc p c) ty) (borrowed-plain ty is))
        ∙ rw is
    | inr isnt ↦
        ap is_inline (emit_desc-route_eq p c ty).0
        ∙ rw isnt (owned_by (emit_desc p c) ty (wrapping ty) isnt)
  ]

  -- An argument is described as inline just when its field in the request enum is a reference instead of
  -- a `WireArg`, and just when client and server pass it on with no encoding.
  pub describe_argument-inline :
      (a : Argument)
      → let inlined = is_inline (describe_argument u p c a).desc in
        (is_wire_arg (field a).field_type ≡ not inlined) × (is_borrowed (param p c a.ty) ≡ inlined)
  unfolding describe_argument field param
  describe_argument-inline a =
      rw (is_inline_eq a.ty) (elim (Bool-cases (is_borrowed_serde_ref a.ty)) [
        | inl is ↦ rw is (refl, refl)
        | inr isnt ↦ rw isnt (refl, refl)
      ])
