-- ===== src/Js/Height.antt =====
-- How much depth the comparison of types in web-rpc/src/js/decls.rs needs.
use web_rpc.Prelude.{ℕ, suc, ltb, if◌then◌else◌}
use web_rpc.Js.Schema.{
  NamedType, DataModelType, NamedTypes, NamedValues, NamedVariants, DataModelVariant, named,
  no_types, and_type, no_fields, and_field, no_variants, and_variant, unit_variant, newtype_variant,
  tuple_variant, struct_variant,
}

abbrev pub join : ℕ → ℕ → ℕ
join a b = if ltb a b then b else a

-- The depth that a comparison uses up on a type: two for each level that it is nested.
unfoldable mutual
  pub height : NamedType → ℕ
  height (named name ty) = suc (type_height ty)

  pub type_height : DataModelType → ℕ
  type_height (DataModelType.option t) = suc (height t)
  type_height (DataModelType.newtype_struct t) = suc (height t)
  type_height (DataModelType.seq t) = suc (height t)
  type_height (DataModelType.tuple ts) = suc (types_height ts)
  type_height (DataModelType.tuple_struct ts) = suc (types_height ts)
  type_height (DataModelType.map key val) = suc (join (height key) (height val))
  type_height (DataModelType.struct fields) = suc (fields_height fields)
  type_height (DataModelType.enum variants) = suc (variants_height variants)
  type_height _ = 1

  pub types_height : NamedTypes → ℕ
  types_height no_types = 0
  types_height (and_type t ts) = join (height t) (types_height ts)

  pub fields_height : NamedValues → ℕ
  fields_height no_fields = 0
  fields_height (and_field name t fields) = join (height t) (fields_height fields)

  pub variants_height : NamedVariants → ℕ
  variants_height no_variants = 0
  variants_height (and_variant name v variants) = join (variant_height v) (variants_height variants)

  pub variant_height : DataModelVariant → ℕ
  variant_height unit_variant = 0
  variant_height (newtype_variant t) = height t
  variant_height (tuple_variant ts) = types_height ts
  variant_height (struct_variant fields) = fields_height fields
