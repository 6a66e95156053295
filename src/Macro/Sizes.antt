-- ===== src/Macro/Sizes.antt =====
-- The types inside a type are smaller, so the fuel of `emit_desc` and `route` is enough.
use web_rpc.Prelude.{
  ℕ, zero, suc, ◌+◌, ◌≤◌, ◌<◌, ◌≡◌, refl, ◌∙◌, inl, inr, Bool, Option, none, some, List, [], ◌∷◌,
  All, Bool-cases, arith, Text, text,
}
use web_rpc.Js.Names.{str_eq}
use web_rpc.Js.Describe.{Desc}
use web_rpc.Wire.Platform.{Platform}
use web_rpc.Wire.Value.{Route}
use web_rpc.Macro.Syntax.{
  Ty, path, reference, slice, impl_trait, other, rust_path, Segments, segment, no_segments,
  PathArguments, no_arguments, angle_bracketed, parenthesized, GenericArguments, no_generics,
  type_argument, assoc_type, other_argument, last_segment, size, size_path, size_segments,
  size_arguments, size_generics,
}
use web_rpc.Macro.Types.{
  all_types, cons_type, all_types_of, generics_of, segment_types, type_arguments, one_type,
  two_types, option_inner_type, result_inner_types, js_inner_type,
}
use web_rpc.Macro.Emit.{
  Wrapping, option, result, js, plain, else_plain, else_js, else_result, wrapping, Resolution, walk,
  desc_by, route_by, no_desc, no_route, emit_desc, route,
}

-- A list of types, if there is one, all smaller than a bound.
abbrev AllBelow : ℕ → Option (List Ty) → Type 0
AllBelow n none = Unit
AllBelow n (some tys) = All (λ t. size t < n) tys

AllBelow-mono : (m n : ℕ) (o : Option (List Ty)) → m ≤ n → AllBelow m o → AllBelow n o
AllBelow-mono m n none h a = tt
AllBelow-mono m n (some []) h a = tt
AllBelow-mono m n (some (t ∷ ts)) h (a, as') = (omega arith, AllBelow-mono m n (some ts) h as')

cons_type-AllBelow :
    (n : ℕ) (t : Ty) (o : Option (List Ty)) → size t < n → AllBelow n o → AllBelow n (cons_type t o)
cons_type-AllBelow n t none h a = tt
cons_type-AllBelow n t (some ts) h a = (h, a)

all_types-AllBelow : (gs : GenericArguments) → AllBelow (size_generics gs) (all_types gs)
unfolding all_types size size_generics
all_types-AllBelow no_generics = tt
all_types-AllBelow (type_argument t gs) =
    cons_type-AllBelow (1 + size t + size_generics gs) t (all_types gs) (omega arith) (
      AllBelow-mono (size_generics gs) (1 + size t + size_generics gs) (all_types gs) (omega arith)
        (all_types-AllBelow gs))
all_types-AllBelow (assoc_type i t gs) = tt
all_types-AllBelow (other_argument gs) = tt

arguments-AllBelow :
    (a : PathArguments) → AllBelow (size_arguments a) (all_types_of (generics_of a))
unfolding size_arguments
arguments-AllBelow no_arguments = tt
arguments-AllBelow (angle_bracketed gs) =
    AllBelow-mono (size_generics gs) (1 + size_generics gs) (all_types gs) (omega arith)
      (all_types-AllBelow gs)
arguments-AllBelow parenthesized = tt

segments-AllBelow :
    (ss : Segments) (wrapper : Text)
    → AllBelow (size_segments ss) (segment_types (last_segment ss) wrapper)
unfolding last_segment size_segments
segments-AllBelow no_segments wrapper = tt
segments-AllBelow (segment ident a no_segments) wrapper = elim (Bool-cases (str_eq ident wrapper)) [
  | inl same ↦ rw same (
      AllBelow-mono (size_arguments a) (1 + size_arguments a + 1) (all_types_of (generics_of a))
        (omega arith) (arguments-AllBelow a))
  | inr differ ↦ rw differ tt
]
segments-AllBelow (segment i a (segment j b ss)) wrapper =
    AllBelow-mono (size_segments (segment j b ss))
      (1 + size_arguments a + size_segments (segment j b ss))
      (segment_types (last_segment (segment j b ss)) wrapper) (omega arith)
      (segments-AllBelow (segment j b ss) wrapper)

type_arguments-AllBelow :
    (ty : Ty) (wrapper : Text) → AllBelow (size ty) (type_arguments ty wrapper)
unfolding type_arguments size size_path
type_arguments-AllBelow (path (rust_path l ss)) wrapper =
    AllBelow-mono (size_segments ss) (1 + (1 + size_segments ss))
      (segment_types (last_segment ss) wrapper) (omega arith) (segments-AllBelow ss wrapper)
type_arguments-AllBelow (reference m t) wrapper = tt
type_arguments-AllBelow (slice t) wrapper = tt
type_arguments-AllBelow (impl_trait bs) wrapper = tt
type_arguments-AllBelow (other n) wrapper = tt

-- What a wrapping holds is smaller than a bound.
abbrev Below : ℕ → Wrapping → Type 0
Below n (option inner) = size inner < n
Below n (result ok err) = (size ok < n) × (size err < n)
Below n (js inner transfer) = Unit
Below n plain = Unit

else_plain-Below : (n : ℕ) (o : Option (Ty × Bool)) → Below n (else_plain o)
else_plain-Below n none = tt
else_plain-Below n (some (inner, transfer)) = tt

else_js-Below :
    (n : ℕ) (o : Option (List Ty)) (inner : Option (Ty × Bool))
    → AllBelow n o
    → Below n (else_js (two_types o) inner)
else_js-Below n none inner h = else_plain-Below n inner
else_js-Below n (some []) inner h = else_plain-Below n inner
else_js-Below n (some (a ∷ [])) inner h = else_plain-Below n inner
else_js-Below n (some (a ∷ b ∷ [])) inner h = (h.0, h.1.0)
else_js-Below n (some (a ∷ b ∷ d ∷ ts)) inner h = else_plain-Below n inner

else_result-Below :
    (n : ℕ) (o : Option (List Ty)) (results : Option (Ty × Ty)) (inner : Option (Ty × Bool))
    → AllBelow n o
    → Below n (else_js results inner)
    → Below n (else_result (one_type o) results inner)
else_result-Below n none results inner h b = b
else_result-Below n (some []) results inner h b = b
else_result-Below n (some (a ∷ [])) results inner h b = h.0
else_result-Below n (some (a ∷ d ∷ ts)) results inner h b = b

wrapping-Below : (ty : Ty) → Below (size ty) (wrapping ty)
unfolding wrapping option_inner_type result_inner_types
wrapping-Below ty =
    else_result-Below (size ty) (type_arguments ty (text "Option")) (result_inner_types ty)
      (js_inner_type ty) (type_arguments-AllBelow ty (text "Option"))
      (else_js-Below (size ty) (type_arguments ty (text "Result")) (js_inner_type ty)
        (type_arguments-AllBelow ty (text "Result")))

size_pos : (ty : Ty) → 0 < size ty
unfolding size
size_pos (path p) = omega arith
size_pos (reference m t) = omega arith
size_pos (slice t) = omega arith
size_pos (impl_trait bs) = omega arith
size_pos (other n) = omega arith

module _ {ℓ} {A : Type ℓ} where
  -- Two functions agree on what a wrapping holds.
  abbrev Same : (Ty → A) → (Ty → A) → Wrapping → Type ℓ
  Same f g (option inner) = f inner ≡ g inner
  Same f g (result ok err) = (f ok ≡ g ok) × (f err ≡ g err)
  Same f g (js inner transfer) = Unit
  Same f g plain = Unit

  module _ (step : (Ty → A) → Ty → Wrapping → A) (base : Ty → A)
      (local : (f g : Ty → A) (ty : Ty) (w : Wrapping)
        → Same f g w
        → step f ty w ≡ step g ty w) where
    at_inner :
        (m n k : ℕ) (w : Wrapping)
        → Below k w
        → ((t : Ty) → size t < k → walk step base m t ≡ walk step base n t)
        → Same (walk step base m) (walk step base n) w
    at_inner m n k (option inner) h same = same inner h
    at_inner m n k (result ok err) h same = (same ok h.0, same err h.1)
    at_inner m n k (js inner transfer) h same = tt
    at_inner m n k plain h same = tt

    walk-fuel :
        (m n : ℕ) (ty : Ty) → size ty ≤ m → size ty ≤ n → walk step base m ty ≡ walk step base n ty
    unfolding walk
    walk-fuel zero n ty h k = absurd (omega (arith, size_pos ty))
    walk-fuel (suc m) zero ty h k = absurd (omega (arith, size_pos ty))
    walk-fuel (suc m) (suc n) ty h k =
        local (walk step base m) (walk step base n) ty (wrapping ty) (
          at_inner m n (size ty) (wrapping ty) (wrapping-Below ty)
            (λ t below. walk-fuel m n t (omega arith) (omega arith)))

    whole : Ty → A
    whole ty = walk step base (size ty) ty

    -- With the size of the type as fuel, the walk satisfies its equation with no fuel.
    walk-whole : (ty : Ty) → whole ty ≡ step whole ty (wrapping ty)
    unfolding walk whole
    walk-whole ty =
        let more : walk step base (size ty) ty ≡ walk step base (suc (size ty)) ty =
          walk-fuel (size ty) (suc (size ty)) ty (omega arith) (omega arith) in
        more
        ∙ local (walk step base (size ty)) whole ty (wrapping ty)
            (inner (wrapping ty) (wrapping-Below ty))
      where
        inner : (w : Wrapping) → Below (size ty) w → Same (walk step base (size ty)) whole w
        inner (option t) h = walk-fuel (size ty) (size t) t (omega arith) (omega arith)
        inner (result t e) h = (
          walk-fuel (size ty) (size t) t (omega arith) (omega arith),
          walk-fuel (size ty) (size e) e (omega arith) (omega arith),
        )
        inner (js t b) h = tt
        inner plain h = tt

module _ (p : Platform) (c : Resolution p) where
  desc_by-local :
      (f g : Ty → Desc) (ty : Ty) (w : Wrapping)
      → Same f g w
      → desc_by p c f ty w ≡ desc_by p c g ty w
  desc_by-local f g ty (option t) h = rw h
  desc_by-local f g ty (result t e) h = rw (h.0, h.1)
  desc_by-local f g ty (js t b) h = refl
  desc_by-local f g ty plain h = refl

  route_by-local :
      (f g : Ty → Route p) (ty : Ty) (w : Wrapping)
      → Same f g w
      → route_by p c f ty w ≡ route_by p c g ty w
  route_by-local f g ty (option t) h = rw h
  route_by-local f g ty (result t e) h = rw (h.0, h.1)
  route_by-local f g ty (js t b) h = refl
  route_by-local f g ty plain h = refl

  -- The fuel never runs out: the description and the route of a type are those that one call makes of
  -- the descriptions and the routes of the types inside.
  pub emit_desc-route_eq :
      (ty : Ty)
      → (emit_desc p c ty ≡ desc_by p c (emit_desc p c) ty (wrapping ty))
        × (route p c ty ≡ route_by p c (route p c) ty (wrapping ty))
  unfolding emit_desc route whole
  emit_desc-route_eq ty = (
    walk-whole (desc_by p c) (no_desc p c) desc_by-local ty,
    walk-whole (route_by p c) (no_route p c) route_by-local ty,
  )
