-- ===== src/Js/Decls.antt =====
-- web-rpc/src/js/decls.rs: collecting and validating the containers that get a declaration.
use web_rpc.Prelude.{
  ℕ, zero, suc, Bool, true, false, ◌&&◌, Option, none, some, List, [], ◌∷◌, ◌++◌, Outcome, ok,
  panic, ◌==◌, if◌then◌else◌, length, Text,
}
use web_rpc.Js.Names.{str_eq, is_ident}
use web_rpc.Js.Schema.{
  NamedType, DataModelType, NamedTypes, NamedValues, NamedVariants, DataModelVariant, named,
  name_of, type_of, no_types, and_type, no_fields, and_field, no_variants, and_variant,
  unit_variant, newtype_variant, tuple_variant, struct_variant,
}

abbrev pub max_declarations : ℕ
max_declarations = 128

abbrev pub equality_depth : ℕ
equality_depth = 32

-- The containers found so far, in the order in which they were first seen.
abbrev pub Declarations : Type 0
Declarations = List NamedType

unfoldable pub get : Declarations → Text → Option NamedType
get [] name = none
get (d ∷ ds) name = if str_eq (name_of d) name then some d else get ds name

unfoldable pub push : Declarations → NamedType → Outcome Declarations
push ds t = if length ds == max_declarations then panic else ok (ds ++ t ∷ [])

unfoldable pub is_container : DataModelType → Bool
is_container (DataModelType.struct _) = true
is_container (DataModelType.enum _) = true
is_container _ = false

unfoldable pub is_declared : NamedType → Bool
unfolding is_container
is_declared t = if is_ident (name_of t) then is_container (type_of t) else false

-- The discriminant of a data model type.
unfoldable pub type_rank : DataModelType → ℕ
type_rank DataModelType.bool = 0
type_rank DataModelType.i8 = 1
type_rank DataModelType.u8 = 2
type_rank DataModelType.i16 = 3
type_rank DataModelType.i32 = 4
type_rank DataModelType.i64 = 5
type_rank DataModelType.i128 = 6
type_rank DataModelType.u16 = 7
type_rank DataModelType.u32 = 8
type_rank DataModelType.u64 = 9
type_rank DataModelType.u128 = 10
type_rank DataModelType.usize = 11
type_rank DataModelType.isize = 12
type_rank DataModelType.f32 = 13
type_rank DataModelType.f64 = 14
type_rank DataModelType.char = 15
type_rank DataModelType.string = 16
type_rank DataModelType.byte_array = 17
type_rank DataModelType.unit = 18
type_rank DataModelType.unit_struct = 19
type_rank DataModelType.schema = 20
type_rank (DataModelType.option t) = 21
type_rank (DataModelType.newtype_struct t) = 22
type_rank (DataModelType.seq t) = 23
type_rank (DataModelType.tuple ts) = 24
type_rank (DataModelType.tuple_struct ts) = 25
type_rank (DataModelType.map k v) = 26
type_rank (DataModelType.struct fs) = 27
type_rank (DataModelType.enum vs) = 28

abbrev ranks_eq : DataModelType → DataModelType → Bool
ranks_eq left right = type_rank left == type_rank right

-- Structural comparison, bounded in depth. The lists are compared up to the first difference.
unfoldable mutual
  pub named_type_eq : NamedType → NamedType → ℕ → Bool
  named_type_eq (named n t) right zero = true
  named_type_eq (named n t) right (suc depth) =
      str_eq n (name_of right) && type_eq t (type_of right) depth

  pub named_types_eq : NamedTypes → NamedTypes → ℕ → Bool
  named_types_eq no_types no_types depth = true
  named_types_eq no_types (and_type r rs) depth = false
  named_types_eq (and_type l ls) no_types depth = false
  named_types_eq (and_type l ls) (and_type r rs) depth =
      named_type_eq l r depth && named_types_eq ls rs depth

  pub fields_eq : NamedValues → NamedValues → ℕ → Bool
  fields_eq no_fields no_fields depth = true
  fields_eq no_fields (and_field m r rs) depth = false
  fields_eq (and_field n l ls) no_fields depth = false
  fields_eq (and_field n l ls) (and_field m r rs) depth =
      str_eq n m && named_type_eq l r depth && fields_eq ls rs depth

  pub type_eq : DataModelType → DataModelType → ℕ → Bool
  type_eq (DataModelType.option l) right (suc depth) = elim right [
    | DataModelType.option r ↦ named_type_eq l r depth
    | other ↦ ranks_eq (DataModelType.option l) other
  ]
  type_eq (DataModelType.newtype_struct l) right (suc depth) = elim right [
    | DataModelType.newtype_struct r ↦ named_type_eq l r depth
    | other ↦ ranks_eq (DataModelType.newtype_struct l) other
  ]
  type_eq (DataModelType.seq l) right (suc depth) = elim right [
    | DataModelType.seq r ↦ named_type_eq l r depth
    | other ↦ ranks_eq (DataModelType.seq l) other
  ]
  type_eq (DataModelType.tuple ls) right (suc depth) = elim right [
    | DataModelType.tuple rs ↦ named_types_eq ls rs depth
    | other ↦ ranks_eq (DataModelType.tuple ls) other
  ]
  type_eq (DataModelType.tuple_struct ls) right (suc depth) = elim right [
    | DataModelType.tuple_struct rs ↦ named_types_eq ls rs depth
    | other ↦ ranks_eq (DataModelType.tuple_struct ls) other
  ]
  type_eq (DataModelType.map k v) right (suc depth) = elim right [
    | DataModelType.map k' v' ↦ named_type_eq k k' depth && named_type_eq v v' depth
    | other ↦ ranks_eq (DataModelType.map k v) other
  ]
  type_eq (DataModelType.struct ls) right (suc depth) = elim right [
    | DataModelType.struct rs ↦ fields_eq ls rs depth
    | other ↦ ranks_eq (DataModelType.struct ls) other
  ]
  type_eq (DataModelType.enum ls) right (suc depth) = elim right [
    | DataModelType.enum rs ↦ variants_eq ls rs depth
    | other ↦ ranks_eq (DataModelType.enum ls) other
  ]
  type_eq left right zero = true
  type_eq left right (suc depth) = ranks_eq left right

  -- The loop over the variants of two enums.
  pub variants_eq : NamedVariants → NamedVariants → ℕ → Bool
  variants_eq no_variants no_variants depth = true
  variants_eq no_variants (and_variant m r rs) depth = false
  variants_eq (and_variant n l ls) no_variants depth = false
  variants_eq (and_variant n l ls) (and_variant m r rs) depth =
      str_eq n m && variant_eq l r depth && variants_eq ls rs depth

  pub variant_eq : DataModelVariant → DataModelVariant → ℕ → Bool
  variant_eq unit_variant unit_variant depth = true
  variant_eq (newtype_variant l) (newtype_variant r) depth = named_type_eq l r depth
  variant_eq (tuple_variant ls) (tuple_variant rs) depth = named_types_eq ls rs depth
  variant_eq (struct_variant ls) (struct_variant rs) depth = fields_eq ls rs depth
  variant_eq _ _ depth = false
