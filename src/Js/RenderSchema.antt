-- ===== src/Js/RenderSchema.antt =====
-- The schemas and wire descriptions of web-rpc/src/js/code.rs are uniform in the buffer, and are written
-- where they are supported.
use web_rpc.Prelude.{ℕ, ◌≡◌, refl, inl, inr, Bool, true, false, [], ◌∷◌, Bool-cases, Text}
use web_rpc.Js.Output.{fail}
use web_rpc.Js.Digits.{put_usize-WritesDigits}
use web_rpc.Js.Output.{put_usize}
use web_rpc.Js.Render.{Uniform, writes, panics, renders}
use web_rpc.Js.Schema.{
  NamedType, DataModelType, NamedTypes, NamedValues, NamedVariants, DataModelVariant, named,
  no_types, and_type, no_fields, and_field, no_variants, and_variant, unit_variant, newtype_variant,
  tuple_variant, struct_variant,
}
use web_rpc.Js.Describe.{Desc}
use web_rpc.Js.Decls.{Declarations, is_declared}
use web_rpc.Js.Supported.{
  Supported, TypesSupported, FieldsSupported, BodySupported, VariantsSupported, VariantSupported,
  DescSupported, DeclarationsSupported,
}
use web_rpc.Js.Code.{
  separator, schema_name, schema_reference, schema_items, schema_field_items, schema_body,
  schema_variants, schema_variant, wire_description, schema_entries,
}

pub Uniform-separator : {p : Bool} (first : Bool) (t : Text) → Uniform p (separator first t)
Uniform-separator true t = search renders
Uniform-separator false t = search renders

pub Uniform-put_usize : {p : Bool} (value : ℕ) → Uniform p (put_usize value)
Uniform-put_usize value =
    let (bs, written, _, _, _) = put_usize-WritesDigits value in writes bs written

pub ruleset rendering = (renders, Uniform-separator, Uniform-put_usize)

pub Uniform-fail : {p : Bool} → (p ≡ false → ⊥) → Uniform p fail
unfolding fail
Uniform-fail {p} h = elim (Bool-cases p) [
  | inl may ↦ panics may (λ o. refl)
  | inr never ↦ absurd (h never)
]

Uniform-schema_name : {p : Bool} (name : Text) → Uniform p (schema_name name)
Uniform-schema_name name = search rendering

mutual
  unfolding schema_reference schema_items schema_field_items schema_body schema_variants
      schema_variant Supported TypesSupported FieldsSupported BodySupported VariantsSupported
      VariantSupported

  pub Uniform-schema_reference :
      {p : Bool} (t : NamedType) → (p ≡ false → Supported t) → Uniform p (schema_reference t)
  Uniform-schema_reference (named name ty) h = elim (Bool-cases (is_declared (named name ty))) [
    | inl on ↦ rw on (Uniform-schema_name name)
    | inr off ↦ rw off (Uniform-schema_body ty (rw off at h))
  ]

  Uniform-schema_items :
      {p : Bool} (ts : NamedTypes) (first : Bool)
      → (p ≡ false → TypesSupported ts)
      → Uniform p (schema_items ts first)
  Uniform-schema_items no_types first h = search rendering
  Uniform-schema_items (and_type t ts) first h = search (
    rendering,
    Uniform-schema_reference t (λ e. (h e).0),
    Uniform-schema_items ts false (λ e. (h e).1),
  )

  Uniform-schema_field_items :
      {p : Bool} (fields : NamedValues) (first : Bool)
      → (p ≡ false → FieldsSupported fields)
      → Uniform p (schema_field_items fields first)
  Uniform-schema_field_items no_fields first h = search rendering
  Uniform-schema_field_items (and_field name t fields) first h =
      search
        (
          rendering,
          Uniform-schema_reference t (λ e. (h e).0),
          Uniform-schema_field_items fields false (λ e. (h e).1),
        )
        depth 20

  pub Uniform-schema_body :
      {p : Bool} (ty : DataModelType) → (p ≡ false → BodySupported ty) → Uniform p (schema_body ty)
  Uniform-schema_body DataModelType.schema h = Uniform-fail h
  Uniform-schema_body (DataModelType.option inner) h =
      search (rendering, Uniform-schema_reference inner h)
  Uniform-schema_body (DataModelType.newtype_struct inner) h = Uniform-schema_reference inner h
  Uniform-schema_body (DataModelType.seq inner) h =
      search (rendering, Uniform-schema_reference inner h)
  Uniform-schema_body (DataModelType.tuple ts) h =
      search (rendering, Uniform-schema_items ts true h)
  Uniform-schema_body (DataModelType.tuple_struct ts) h =
      search (rendering, Uniform-schema_items ts true h)
  Uniform-schema_body (DataModelType.map key val) h = search (
    rendering,
    Uniform-schema_reference key (λ e. (h e).0),
    Uniform-schema_reference val (λ e. (h e).1),
  )
  Uniform-schema_body (DataModelType.struct fields) h =
      search (rendering, Uniform-schema_field_items fields true h)
  Uniform-schema_body (DataModelType.enum variants) h =
      search (rendering, Uniform-schema_variants variants true h)
  Uniform-schema_body _ h = search rendering

  Uniform-schema_variants :
      {p : Bool} (variants : NamedVariants) (first : Bool)
      → (p ≡ false → VariantsSupported variants)
      → Uniform p (schema_variants variants first)
  Uniform-schema_variants no_variants first h = search rendering
  Uniform-schema_variants (and_variant name v variants) first h =
      search
        (
          rendering,
          Uniform-schema_variant v (λ e. (h e).0),
          Uniform-schema_variants variants false (λ e. (h e).1),
        )
        depth 20

  Uniform-schema_variant :
      {p : Bool} (v : DataModelVariant)
      → (p ≡ false → VariantSupported v)
      → Uniform p (schema_variant v)
  Uniform-schema_variant unit_variant h = search rendering
  Uniform-schema_variant (newtype_variant inner) h =
      search (rendering, Uniform-schema_reference inner h)
  Uniform-schema_variant (tuple_variant (and_type inner no_types)) h =
      search (rendering, Uniform-schema_reference inner (λ e. (h e).0))
  Uniform-schema_variant (tuple_variant no_types) h =
      search (rendering, Uniform-schema_items no_types true h)
  Uniform-schema_variant (tuple_variant (and_type t (and_type u ts))) h =
      search (rendering, Uniform-schema_items (and_type t (and_type u ts)) true h)
  Uniform-schema_variant (struct_variant fields) h =
      search (rendering, Uniform-schema_field_items fields true h)

pub Uniform-wire_description :
    {p : Bool} (desc : Desc) → (p ≡ false → DescSupported desc) → Uniform p (wire_description desc)
unfolding wire_description DescSupported
Uniform-wire_description (Desc.js name transfer) h = search rendering
Uniform-wire_description (Desc.postcard t) h = search (rendering, Uniform-schema_reference t h)
Uniform-wire_description (Desc.inline t) h = search (rendering, Uniform-schema_reference t h)
Uniform-wire_description (Desc.option inner) h =
    search (rendering, Uniform-wire_description inner h)
Uniform-wire_description (Desc.result o e) h = search (
  rendering,
  Uniform-wire_description o (λ q. (h q).0),
  Uniform-wire_description e (λ q. (h q).1),
)

pub Uniform-schema_entries :
    {p : Bool} (ds : Declarations)
    → (p ≡ false → DeclarationsSupported ds)
    → Uniform p (schema_entries ds)
unfolding schema_entries
Uniform-schema_entries [] h = search rendering
Uniform-schema_entries (named name ty ∷ ds) h =
    search
      (rendering, Uniform-schema_body ty (λ e. (h e).0), Uniform-schema_entries ds (λ e. (h e).1))
      depth 20
