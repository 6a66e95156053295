-- ===== src/Js/Equal.antt =====
-- The comparison of types in web-rpc/src/js/decls.rs takes each type to be equal to itself.
use web_rpc.Prelude.{ℕ, zero, suc, ◌≡◌, refl, true, Text}
use web_rpc.Js.Names.{str_eq, str_eq_iff}
use web_rpc.Js.Schema.{
  NamedType, DataModelType, NamedTypes, NamedValues, NamedVariants, DataModelVariant, named,
  no_types, and_type, no_fields, and_field, no_variants, and_variant, unit_variant, newtype_variant,
  tuple_variant, struct_variant,
}
use web_rpc.Js.Decls.{
  type_rank, named_type_eq, named_types_eq, fields_eq, type_eq, variants_eq, variant_eq,
}

pub str_eq_self : (t : Text) → str_eq t t ≡ true
str_eq_self t = (str_eq_iff t t).1 refl

mutual
  unfolding named_type_eq named_types_eq fields_eq type_eq variants_eq variant_eq type_rank

  pub named_type_eq_self : (t : NamedType) (depth : ℕ) → named_type_eq t t depth ≡ true
  named_type_eq_self (named name ty) zero = refl
  named_type_eq_self (named name ty) (suc depth) = rw (str_eq_self name) (type_eq_self ty depth)

  named_types_eq_self : (ts : NamedTypes) (depth : ℕ) → named_types_eq ts ts depth ≡ true
  named_types_eq_self no_types depth = refl
  named_types_eq_self (and_type t ts) depth =
      rw (named_type_eq_self t depth) (named_types_eq_self ts depth)

  fields_eq_self : (fields : NamedValues) (depth : ℕ) → fields_eq fields fields depth ≡ true
  fields_eq_self no_fields depth = refl
  fields_eq_self (and_field name t fields) depth =
      rw (str_eq_self name, named_type_eq_self t depth) (fields_eq_self fields depth)

  type_eq_self : (ty : DataModelType) (depth : ℕ) → type_eq ty ty depth ≡ true
  type_eq_self (DataModelType.option t) (suc depth) = named_type_eq_self t depth
  type_eq_self (DataModelType.newtype_struct t) (suc depth) = named_type_eq_self t depth
  type_eq_self (DataModelType.seq t) (suc depth) = named_type_eq_self t depth
  type_eq_self (DataModelType.tuple ts) (suc depth) = named_types_eq_self ts depth
  type_eq_self (DataModelType.tuple_struct ts) (suc depth) = named_types_eq_self ts depth
  type_eq_self (DataModelType.map key val) (suc depth) =
      rw (named_type_eq_self key depth) (named_type_eq_self val depth)
  type_eq_self (DataModelType.struct fields) (suc depth) = fields_eq_self fields depth
  type_eq_self (DataModelType.enum variants) (suc depth) = variants_eq_self variants depth
  type_eq_self _ zero = refl
  type_eq_self _ (suc depth) = refl

  variants_eq_self :
      (variants : NamedVariants) (depth : ℕ) → variants_eq variants variants depth ≡ true
  variants_eq_self no_variants depth = refl
  variants_eq_self (and_variant name v variants) depth =
      rw (str_eq_self name, variant_eq_self v depth) (variants_eq_self variants depth)

  variant_eq_self : (v : DataModelVariant) (depth : ℕ) → variant_eq v v depth ≡ true
  variant_eq_self unit_variant depth = refl
  variant_eq_self (newtype_variant t) depth = named_type_eq_self t depth
  variant_eq_self (tuple_variant ts) depth = named_types_eq_self ts depth
  variant_eq_self (struct_variant fields) depth = fields_eq_self fields depth
