-- ===== src/Macro/Described.antt =====
-- The description that `emit_desc` gives of a type, against the code that `emit_encode` and
-- `emit_decode` generate for it.
use web_rpc.Prelude.{
  ℕ, zero, suc, ◌≡◌, refl, ap, ◌∙◌, sym, inl, inr, Bool, true, false, none, some, List, [], ◌∷◌,
  ◌++◌, ok, length, Bool-cases, Text,
}
use web_rpc.Js.Schema.{NamedType}
use web_rpc.Js.Describe.{Desc}
use web_rpc.Wire.Arg.{WireArg, slots}
use web_rpc.Wire.Platform.{Platform}
use web_rpc.Wire.Value
use web_rpc.Wire.Value.{Route, Value, Arrays, encode, decode}
use web_rpc.Wire.RoundTrip.{wire, posted, moved, encode_lem}
use web_rpc.Wire.Strict.{Fits, after_shifts, decode-ok}
use web_rpc.Macro.Syntax.{Ty, size}
use web_rpc.Macro.Types.{is_borrowed_serde_ref}
use web_rpc.Macro.Emit.{
  Wrapping, option, result, js, plain, wrapping, Resolution, walk, desc_by, route_by, no_desc,
  no_route, emit_desc, route, schema_type,
}

-- A description of a value that travels in a `WireArg` throughout.
abbrev pub NoInline : Desc → Type 0
NoInline (Desc.js name transfer) = Unit
NoInline (Desc.postcard schema) = Unit
NoInline (Desc.inline schema) = ⊥
NoInline (Desc.option d) = NoInline d
NoInline (Desc.result d e) = NoInline d × NoInline e

-- What the comment on `Desc` promises of the wire argument of a value.
abbrev pub Describes : Desc → WireArg → Type 0
Describes (Desc.js name transfer) WireArg.js = Unit
Describes (Desc.js name transfer) _ = ⊥
Describes (Desc.postcard schema) (WireArg.bytes b) = Unit
Describes (Desc.postcard schema) _ = ⊥
Describes (Desc.inline schema) w = ⊥
Describes (Desc.option d) (WireArg.some w) = Describes d w
Describes (Desc.option d) WireArg.none = Unit
Describes (Desc.option d) _ = ⊥
Describes (Desc.result d e) (WireArg.ok w) = Describes d w
Describes (Desc.result d e) (WireArg.err w) = Describes e w
Describes (Desc.result d e) _ = ⊥

-- For each Javascript value of a wire argument, whether the description has it transferred.
abbrev pub flags : Desc → WireArg → List Bool
flags (Desc.js name transfer) w = transfer ∷ []
flags (Desc.postcard schema) w = []
flags (Desc.inline schema) w = []
flags (Desc.option d) (WireArg.some w) = flags d w
flags (Desc.option d) _ = []
flags (Desc.result d e) (WireArg.ok w) = flags d w
flags (Desc.result d e) (WireArg.err w) = flags e w
flags (Desc.result d e) _ = []

abbrev pub select {ℓ} : {A : Type ℓ} → List Bool → List A → List A
select [] vs = []
select (b ∷ bs) [] = []
select (true ∷ bs) (v ∷ vs) = v ∷ select bs vs
select (false ∷ bs) (v ∷ vs) = select bs vs

module _ (p : Platform) where
  open p use {Js}

  -- A description and a route of the same structure.
  data Mirrors : Desc → Route p → Type 0 where
    a_js : (n : Text) (t : Bool) (c : p.Class) → Mirrors (Desc.js n t) (Value.js t c)
    a_postcard : (s : NamedType) (l : p.Leaf) → Mirrors (Desc.postcard s) (Value.leaf l)
    an_inline : (s : NamedType) (l : p.Leaf) → Mirrors (Desc.inline s) (Value.leaf l)
    an_option : {d : Desc} {r : Route p} → Mirrors d r → Mirrors (Desc.option d) (Value.option r)
    a_result :
        {d e : Desc} {r s : Route p}
        → Mirrors d r
        → Mirrors e s
        → Mirrors (Desc.result d e) (Value.result r s)

  Fits-Describes :
      {d : Desc} {r : Route p}
      → Mirrors d r
      → NoInline d
      → (w : WireArg) → Fits p r w
      → Describes d w
  Fits-Describes (a_js n t c) h WireArg.js fits = tt
  Fits-Describes (a_js n t c) h _ fits = absurd fits
  Fits-Describes (a_postcard s l) h (WireArg.bytes b) fits = tt
  Fits-Describes (a_postcard s l) h _ fits = absurd fits
  Fits-Describes (an_inline s l) h w fits = absurd h
  Fits-Describes (an_option m) h (WireArg.some w) fits = Fits-Describes m h w fits
  Fits-Describes (an_option m) h WireArg.none fits = tt
  Fits-Describes (an_option m) h _ fits = absurd fits
  Fits-Describes (a_result m o) h (WireArg.ok w) fits = Fits-Describes m h.0 w fits
  Fits-Describes (a_result m o) h (WireArg.err w) fits = Fits-Describes o h.1 w fits
  Fits-Describes (a_result m o) h _ fits = absurd fits

  -- A described wire argument has a flag for each of its slots.
  flags-slots : (d : Desc) (w : WireArg) → Describes d w → length (flags d w) ≡ slots w
  flags-slots (Desc.js n t) WireArg.js h = refl
  flags-slots (Desc.js n t) _ h = absurd h
  flags-slots (Desc.postcard s) (WireArg.bytes b) h = refl
  flags-slots (Desc.postcard s) _ h = absurd h
  flags-slots (Desc.inline s) w h = absurd h
  flags-slots (Desc.option d) (WireArg.some w) h = flags-slots d w h
  flags-slots (Desc.option d) WireArg.none h = refl
  flags-slots (Desc.option d) _ h = absurd h
  flags-slots (Desc.result d e) (WireArg.ok w) h = flags-slots d w h
  flags-slots (Desc.result d e) (WireArg.err w) h = flags-slots e w h
  flags-slots (Desc.result d e) _ h = absurd h

  wire-Fits : (r : Route p) (v : Value p r) → Fits p r (wire p r v)
  unfolding wire
  wire-Fits (Value.option r) (some v) = wire-Fits r v
  wire-Fits (Value.option r) none = tt
  wire-Fits (Value.result r s) (inl v) = wire-Fits r v
  wire-Fits (Value.result r s) (inr e) = wire-Fits s e
  wire-Fits (Value.js t c) v = tt
  wire-Fits (Value.leaf l) v = tt

  posted-slots : (r : Route p) (v : Value p r) → length (posted p r v) ≡ slots (wire p r v)
  unfolding wire posted
  posted-slots (Value.option r) (some v) = posted-slots r v
  posted-slots (Value.option r) none = refl
  posted-slots (Value.result r s) (inl v) = posted-slots r v
  posted-slots (Value.result r s) (inr e) = posted-slots s e
  posted-slots (Value.js t c) v = refl
  posted-slots (Value.leaf l) v = refl

  moved-select :
      {d : Desc} {r : Route p}
      → Mirrors d r
      → (v : Value p r) → moved p r v ≡ select (flags d (wire p r v)) (posted p r v)
  unfolding wire posted moved
  moved-select (a_js n true c) v = refl
  moved-select (a_js n false c) v = refl
  moved-select (a_postcard s l) v = refl
  moved-select (an_inline s l) v = refl
  moved-select (an_option m) (some v) = moved-select m v
  moved-select (an_option m) none = refl
  moved-select (a_result m o) (inl v) = moved-select m v
  moved-select (a_result m o) (inr e) = moved-select o e

module _ (p : Platform) (c : Resolution p) where
  open p use {Js}

  mirror_by :
      (f : Ty → Desc) (g : Ty → Route p)
      → ((t : Ty) → Mirrors p (f t) (g t))
      → (ty : Ty) (w : Wrapping) → Mirrors p (desc_by p c f ty w) (route_by p c g ty w)
  mirror_by f g h ty (option t) = an_option (h t)
  mirror_by f g h ty (result t e) = a_result (h t) (h e)
  mirror_by f g h ty (js t b) = a_js (c.js_name t) b (c.class t)
  mirror_by f g h ty plain = elim (Bool-cases (is_borrowed_serde_ref ty)) [
    | inl yes' ↦ rw yes' (an_inline (c.schema (schema_type ty)) (c.leaf ty))
    | inr no' ↦ rw no' (a_postcard (c.schema ty) (c.leaf ty))
  ]

  mirror_in :
      (fuel : ℕ) (ty : Ty)
      → Mirrors p
          (walk (desc_by p c) (no_desc p c) fuel ty)
          (walk (route_by p c) (no_route p c) fuel ty)
  unfolding walk
  mirror_in zero ty = a_postcard (c.schema ty) (c.leaf ty)
  mirror_in (suc fuel) ty =
      mirror_by (walk (desc_by p c) (no_desc p c) fuel) (walk (route_by p c) (no_route p c) fuel)
        (mirror_in fuel) ty (wrapping ty)

  emit_desc-Mirrors : (ty : Ty) → Mirrors p (emit_desc p c ty) (route p c ty)
  unfolding emit_desc route
  emit_desc-Mirrors ty = mirror_in (size ty) ty

  -- A value of a signature type, none of whose parts is described as borrowed, is encoded as the
  -- description of the type says: the wire argument has the described form, one Javascript value is
  -- posted for each Javascript part of the description that the value has, and of these just those are
  -- put on the transfer list whose description is marked as transferred.
  pub encode-Describes :
      (ty : Ty) (v : Value p (route p c ty)) (a : Arrays p)
      → NoInline (emit_desc p c ty)
      → let sent = encode p (route p c ty) v a in
        let marks = flags (emit_desc p c ty) sent.0 in
        (vs : List Js) × Describes (emit_desc p c ty) sent.0
        × (sent.1.post ≡ a.post ++ vs)
        × (length vs ≡ length marks)
        × (sent.1.transfer ≡ a.transfer ++ select marks vs)
  encode-Describes ty v a h =
      let r = route p c ty in
      let fits = Fits-Describes p (emit_desc-Mirrors ty) h (wire p r v) (wire-Fits p r v) in
      rw (encode_lem p r v a) (
        posted p r v,
        fits,
        refl,
        posted-slots p r v ∙ sym (flags-slots p (emit_desc p c ty) (wire p r v) fits),
        ap (λ ys. a.transfer ++ ys) (moved-select p (emit_desc-Mirrors ty) v),
      )

  -- A decoder of such a type that does not panic was given a wire argument of the described form, and
  -- took one Javascript value off the array for each Javascript part of it.
  pub decode-Describes :
      (ty : Ty) (w : WireArg) (vs : List Js) {v : Value p (route p c ty)} {rest : List Js}
      → NoInline (emit_desc p c ty)
      → decode p (route p c ty) w vs ≡ ok (v, rest)
      → Describes (emit_desc p c ty) w
        × (rest ≡ after_shifts (length (flags (emit_desc p c ty) w)) vs)
  decode-Describes ty w vs {v} {rest} h e =
      let r = route p c ty in
      let (fits, left) = decode-ok p r w vs {v = v} {rest = rest} e in
      let described = Fits-Describes p (emit_desc-Mirrors ty) h w fits in
      (described, rw (flags-slots p (emit_desc p c ty) w described) left)
