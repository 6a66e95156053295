-- ===== src/Js/Depth.antt =====
-- How far the comparison of types in web-rpc/src/js/decls.rs can be trusted.
use web_rpc.Prelude.{
  ℕ, zero, suc, ◌≤◌, ◌<◌, ◌≡◌, ◌↔◌, refl, ap, ◌∙◌, sym, subst, Bool, true, false, ◌&&◌, arith, ◌==◌,
  ==_iff, if◌then◌else◌,
}
use web_rpc.Js.Names.{str_eq, str_eq_iff}
use web_rpc.Js.Schema.{
  NamedType, DataModelType, NamedTypes, NamedValues, NamedVariants, DataModelVariant, named,
  no_types, and_type, no_fields, and_field, no_variants, and_variant, unit_variant, newtype_variant,
  tuple_variant, struct_variant,
}
use web_rpc.Js.Decls.{
  type_rank, named_type_eq, named_types_eq, fields_eq, type_eq, variants_eq, variant_eq,
}
use web_rpc.Js.Height.{
  join, height, type_height, types_height, fields_height, variants_height, variant_height,
}
use web_rpc.Js.Equal.{named_type_eq_self}

-- The type without parts that has a discriminant.
of_rank : ℕ → DataModelType
of_rank n =
    if n == 0
    then DataModelType.bool
    else if n == 1
    then DataModelType.i8
    else if n == 2
    then DataModelType.u8
    else if n == 3
    then DataModelType.i16
    else if n == 4
    then DataModelType.i32
    else if n == 5
    then DataModelType.i64
    else if n == 6
    then DataModelType.i128
    else if n == 7
    then DataModelType.u16
    else if n == 8
    then DataModelType.u32
    else if n == 9
    then DataModelType.u64
    else if n == 10
    then DataModelType.u128
    else if n == 11
    then DataModelType.usize
    else if n == 12
    then DataModelType.isize
    else if n == 13
    then DataModelType.f32
    else if n == 14
    then DataModelType.f64
    else if n == 15
    then DataModelType.char
    else if n == 16
    then DataModelType.string
    else if n == 17
    then DataModelType.byte_array
    else if n == 18
    then DataModelType.unit
    else if n == 19
    then DataModelType.unit_struct
    else DataModelType.schema

of_rank-type_rank : (ty : DataModelType) → type_rank ty < 21 → of_rank (type_rank ty) ≡ ty
unfolding of_rank type_rank
of_rank-type_rank (DataModelType.option t) h = absurd (omega arith)
of_rank-type_rank (DataModelType.newtype_struct t) h = absurd (omega arith)
of_rank-type_rank (DataModelType.seq t) h = absurd (omega arith)
of_rank-type_rank (DataModelType.tuple ts) h = absurd (omega arith)
of_rank-type_rank (DataModelType.tuple_struct ts) h = absurd (omega arith)
of_rank-type_rank (DataModelType.map key val) h = absurd (omega arith)
of_rank-type_rank (DataModelType.struct _) h = absurd (omega arith)
of_rank-type_rank (DataModelType.enum _) h = absurd (omega arith)
of_rank-type_rank _ h = refl

-- Types without parts are told apart by their discriminants.
same_rank : (l r : DataModelType) → type_rank l < 21 → (type_rank l == type_rank r) ≡ true → l ≡ r
same_rank l r h e =
    let same : type_rank l ≡ type_rank r = (==_iff (type_rank l) (type_rank r)).0 e in
    sym (of_rank-type_rank l h) ∙ ap of_rank same ∙ of_rank-type_rank r (omega arith)

and-true : (a b : Bool) → (a && b) ≡ true → (a ≡ true) × (b ≡ true)
and-true true b h = (refl, h)
and-true false b h = cc

join-le : (a b n : ℕ) → join a b ≤ n → (a ≤ n) × (b ≤ n)
join-le a b n h = ground arith

type_height-pos : (ty : DataModelType) → 0 < type_height ty
unfolding type_height
type_height-pos (DataModelType.option t) = omega arith
type_height-pos (DataModelType.newtype_struct t) = omega arith
type_height-pos (DataModelType.seq t) = omega arith
type_height-pos (DataModelType.tuple ts) = omega arith
type_height-pos (DataModelType.tuple_struct ts) = omega arith
type_height-pos (DataModelType.map key val) = omega arith
type_height-pos (DataModelType.struct _) = omega arith
type_height-pos (DataModelType.enum _) = omega arith
type_height-pos _ = omega arith

mutual
  unfolding named_type_eq named_types_eq fields_eq type_eq variants_eq variant_eq type_rank height
      type_height types_height fields_height variants_height variant_height

  pub named_type_eq-eq :
      (l r : NamedType) (n : ℕ) → height l ≤ n → named_type_eq l r n ≡ true → l ≡ r
  named_type_eq-eq (named a ty) (named b ty') zero h e = absurd (omega arith)
  named_type_eq-eq (named a ty) (named b ty') (suc n) h e =
      let (x, y) = and-true (str_eq a b) _ e in
      let p = (str_eq_iff a b).0 x in let q = type_eq-eq ty ty' n (omega arith) y in cc

  type_eq-eq : (l r : DataModelType) (n : ℕ) → type_height l ≤ n → type_eq l r n ≡ true → l ≡ r
  type_eq-eq (DataModelType.option l) (DataModelType.option r) (suc n) h e =
      ap DataModelType.option (named_type_eq-eq l r n (omega arith) e)
  type_eq-eq (DataModelType.option l) _ (suc n) h e = cc
  type_eq-eq (DataModelType.newtype_struct l) (DataModelType.newtype_struct r) (suc n) h e =
      ap DataModelType.newtype_struct (named_type_eq-eq l r n (omega arith) e)
  type_eq-eq (DataModelType.newtype_struct l) _ (suc n) h e = cc
  type_eq-eq (DataModelType.seq l) (DataModelType.seq r) (suc n) h e =
      ap DataModelType.seq (named_type_eq-eq l r n (omega arith) e)
  type_eq-eq (DataModelType.seq l) _ (suc n) h e = cc
  type_eq-eq (DataModelType.tuple l) (DataModelType.tuple r) (suc n) h e =
      ap DataModelType.tuple (named_types_eq-eq l r n (omega arith) e)
  type_eq-eq (DataModelType.tuple l) _ (suc n) h e = cc
  type_eq-eq (DataModelType.tuple_struct l) (DataModelType.tuple_struct r) (suc n) h e =
      ap DataModelType.tuple_struct (named_types_eq-eq l r n (omega arith) e)
  type_eq-eq (DataModelType.tuple_struct l) _ (suc n) h e = cc
  type_eq-eq (DataModelType.map k v) (DataModelType.map k' v') (suc n) h e =
      let (x, y) = and-true (named_type_eq k k' n) _ e in
      let (hk, hv) = join-le (height k) (height v) n (omega arith) in
      let p = named_type_eq-eq k k' n hk x in let q = named_type_eq-eq v v' n hv y in cc
  type_eq-eq (DataModelType.map k v) _ (suc n) h e = cc
  type_eq-eq (DataModelType.struct l) (DataModelType.struct r) (suc n) h e =
      ap DataModelType.struct (fields_eq-eq l r n (omega arith) e)
  type_eq-eq (DataModelType.struct l) _ (suc n) h e = cc
  type_eq-eq (DataModelType.enum l) (DataModelType.enum r) (suc n) h e =
      ap DataModelType.enum (variants_eq-eq l r n (omega arith) e)
  type_eq-eq (DataModelType.enum l) _ (suc n) h e = cc
  type_eq-eq l r zero h e = absurd (omega (arith, type_height-pos l))
  type_eq-eq _ r (suc n) h e = same_rank _ r (omega arith) e

  named_types_eq-eq :
      (l r : NamedTypes) (n : ℕ) → types_height l ≤ n → named_types_eq l r n ≡ true → l ≡ r
  named_types_eq-eq no_types no_types n h e = refl
  named_types_eq-eq no_types (and_type r rs) n h e = cc
  named_types_eq-eq (and_type l ls) no_types n h e = cc
  named_types_eq-eq (and_type l ls) (and_type r rs) n h e =
      let (x, y) = and-true (named_type_eq l r n) _ e in
      let (h₁, h₂) = join-le (height l) (types_height ls) n h in
      let p = named_type_eq-eq l r n h₁ x in let q = named_types_eq-eq ls rs n h₂ y in cc

  fields_eq-eq : (l r : NamedValues) (n : ℕ) → fields_height l ≤ n → fields_eq l r n ≡ true → l ≡ r
  fields_eq-eq no_fields no_fields n h e = refl
  fields_eq-eq no_fields (and_field b r rs) n h e = cc
  fields_eq-eq (and_field a l ls) no_fields n h e = cc
  fields_eq-eq (and_field a l ls) (and_field b r rs) n h e =
      let (x, z) = and-true (str_eq a b && named_type_eq l r n) _ e in
      let (x, y) = and-true (str_eq a b) _ x in
      let (h₁, h₂) = join-le (height l) (fields_height ls) n h in
      let name = (str_eq_iff a b).0 x in
      let p = named_type_eq-eq l r n h₁ y in let q = fields_eq-eq ls rs n h₂ z in cc

  variants_eq-eq :
      (l r : NamedVariants) (n : ℕ) → variants_height l ≤ n → variants_eq l r n ≡ true → l ≡ r
  variants_eq-eq no_variants no_variants n h e = refl
  variants_eq-eq no_variants (and_variant b r rs) n h e = cc
  variants_eq-eq (and_variant a l ls) no_variants n h e = cc
  variants_eq-eq (and_variant a l ls) (and_variant b r rs) n h e =
      let (x, z) = and-true (str_eq a b && variant_eq l r n) _ e in
      let (x, y) = and-true (str_eq a b) _ x in
      let (h₁, h₂) = join-le (variant_height l) (variants_height ls) n h in
      let name = (str_eq_iff a b).0 x in
      let p = variant_eq-eq l r n h₁ y in let q = variants_eq-eq ls rs n h₂ z in cc

  variant_eq-eq :
      (l r : DataModelVariant) (n : ℕ) → variant_height l ≤ n → variant_eq l r n ≡ true → l ≡ r
  variant_eq-eq unit_variant unit_variant n h e = refl
  variant_eq-eq (newtype_variant l) (newtype_variant r) n h e =
      ap newtype_variant (named_type_eq-eq l r n h e)
  variant_eq-eq (tuple_variant l) (tuple_variant r) n h e =
      ap tuple_variant (named_types_eq-eq l r n h e)
  variant_eq-eq (struct_variant l) (struct_variant r) n h e =
      ap struct_variant (fields_eq-eq l r n h e)
  variant_eq-eq _ _ n h e = cc

-- Up to a depth that the first of two types does not exceed, the comparison holds just when the two are
-- equal.
pub named_type_eq_iff :
    (l r : NamedType) (n : ℕ) → height l ≤ n → (named_type_eq l r n ≡ true) ↔ (l ≡ r)
named_type_eq_iff l r n h = (
  named_type_eq-eq l r n h,
  λ e. subst (λ x. named_type_eq l x n ≡ true) e (named_type_eq_self l n),
)
