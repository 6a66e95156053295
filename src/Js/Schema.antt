-- ===== src/Js/Schema.antt =====
-- postcard-schema's description of a type, in the constructors on which web-rpc/src/js/decls.rs
-- matches exhaustively. The `&'static` references of a description make a finite tree.
use web_rpc.Prelude.{Text}

mutual
  -- `NamedType { name, ty }`.
  pub data NamedType : Type 0 where
    named : Text → DataModelType → NamedType

  pub data DataModelType : Type 0 where
    bool i8 u8 i16 i32 i64 i128 u16 u32 u64 u128 usize isize : DataModelType
    f32 f64 char string byte_array unit unit_struct schema : DataModelType
    option newtype_struct seq : NamedType → DataModelType
    tuple tuple_struct : NamedTypes → DataModelType
    map : NamedType → NamedType → DataModelType
    struct : NamedValues → DataModelType
    enum : NamedVariants → DataModelType

  -- `&[&NamedType]`.
  pub data NamedTypes : Type 0 where
    no_types : NamedTypes
    and_type : NamedType → NamedTypes → NamedTypes

  -- `&[&NamedValue]`, the fields of a struct: a name and a type each.
  pub data NamedValues : Type 0 where
    no_fields : NamedValues
    and_field : Text → NamedType → NamedValues → NamedValues

  -- `&[&NamedVariant]`, the variants of an enum.
  pub data NamedVariants : Type 0 where
    no_variants : NamedVariants
    and_variant : Text → DataModelVariant → NamedVariants → NamedVariants

  pub data DataModelVariant : Type 0 where
    unit_variant : DataModelVariant
    newtype_variant : NamedType → DataModelVariant
    tuple_variant : NamedTypes → DataModelVariant
    struct_variant : NamedValues → DataModelVariant

abbrev pub name_of : NamedType → Text
name_of (named name ty) = name

abbrev pub type_of : NamedType → DataModelType
type_of (named name ty) = ty
