-- ===== src/Js/Dts.antt =====
-- web-rpc/src/js/dts.rs: how the Typescript renderer writes types.
use web_rpc.Prelude.{Bool, true, false, if◌then◌else◌, Text, text}
use web_rpc.Js.Output.{Pass, ◌>>◌, idle, put, put_quoted}
use web_rpc.Js.Schema.{
  NamedType, DataModelType, NamedTypes, NamedValues, NamedVariants, DataModelVariant, named,
  no_types, and_type, no_fields, and_field, no_variants, and_variant, unit_variant, newtype_variant,
  tuple_variant, struct_variant,
}
use web_rpc.Js.Decls.{is_declared}
use web_rpc.Js.Code.{separator}

unfoldable pub is_unit : NamedType → Bool
is_unit (named name DataModelType.unit) = true
is_unit _ = false

unfoldable pub is_byte : NamedType → Bool
is_byte (named name DataModelType.u8) = true
is_byte _ = false

unfoldable pub is_unit_only : NamedVariants → Bool
is_unit_only no_variants = true
is_unit_only (and_variant name unit_variant variants) = is_unit_only variants
is_unit_only _ = false

-- `type_list`, given its loop.
abbrev pub type_list : Pass → Pass
type_list items = do put (text "["); items; put (text "]")

-- A variant with a tag, given its contents.
abbrev pub tagged_variant : Text → Pass → Pass
tagged_variant name contents = do put (text "{ tag: "); put_quoted name; contents; put (text " }")

abbrev pub array_of : Pass → Pass
array_of element = do put (text "("); element; put (text ")[]")

-- `first` holds before the element of index 0.
unfoldable mutual
  pub type_reference : NamedType → Pass
  type_reference (named name ty) = if is_declared (named name ty) then put name else type_body ty

  -- The loop of `type_list`.
  pub type_items : NamedTypes → Bool → Pass
  type_items no_types first = idle
  type_items (and_type t ts) first = do
    separator first (text ", ")
    type_reference t
    type_items ts false

  -- The fields of a struct type.
  pub type_fields : NamedValues → Pass
  type_fields no_fields = idle
  type_fields (and_field name t fields) = do
    put name
    put (text ": ")
    type_reference t
    put (text "; ")
    type_fields fields

  -- The fields of a struct variant.
  pub variant_fields : NamedValues → Pass
  variant_fields no_fields = idle
  variant_fields (and_field name t fields) = do
    put (text "; ")
    put name
    put (text ": ")
    type_reference t
    variant_fields fields

  pub type_body : DataModelType → Pass
  type_body DataModelType.bool = put (text "boolean")
  type_body DataModelType.i8 = put (text "number")
  type_body DataModelType.u8 = put (text "number")
  type_body DataModelType.i16 = put (text "number")
  type_body DataModelType.u16 = put (text "number")
  type_body DataModelType.i32 = put (text "number")
  type_body DataModelType.u32 = put (text "number")
  type_body DataModelType.f32 = put (text "number")
  type_body DataModelType.f64 = put (text "number")
  type_body DataModelType.i64 = put (text "bigint")
  type_body DataModelType.u64 = put (text "bigint")
  type_body DataModelType.i128 = put (text "bigint")
  type_body DataModelType.u128 = put (text "bigint")
  type_body DataModelType.usize = put (text "bigint")
  type_body DataModelType.isize = put (text "bigint")
  type_body DataModelType.char = put (text "string")
  type_body DataModelType.string = put (text "string")
  type_body DataModelType.byte_array = put (text "Uint8Array")
  type_body DataModelType.unit = put (text "undefined")
  type_body DataModelType.unit_struct = put (text "undefined")
  type_body DataModelType.schema = put (text "unknown")
  type_body (DataModelType.option inner) = do
    put (text "(")
    type_reference inner
    put (text " | undefined)")
  type_body (DataModelType.newtype_struct inner) = type_reference inner
  type_body (DataModelType.seq inner) =
      if is_byte inner then put (text "Uint8Array") else array_of (type_reference inner)
  type_body (DataModelType.tuple ts) = type_list (type_items ts true)
  type_body (DataModelType.tuple_struct ts) = type_list (type_items ts true)
  type_body (DataModelType.map key val) = do
    put (text "Map<")
    type_reference key
    put (text ", ")
    type_reference val
    put (text ">")
  type_body (DataModelType.struct fields) = do put (text "{ "); type_fields fields; put (text "}")
  type_body (DataModelType.enum no_variants) = put (text "never")
  type_body (DataModelType.enum (and_variant name v variants)) =
      type_variants (and_variant name v variants) true (is_unit_only (and_variant name v variants))

  -- The loop over an enum's variants.
  pub type_variants : NamedVariants → Bool → Bool → Pass
  type_variants no_variants first unit_only = idle
  type_variants (and_variant name v variants) first unit_only = do
    separator first (text " | ")
    if unit_only then put_quoted name else tagged_variant name (type_variant v)
    type_variants variants false unit_only

  pub type_variant : DataModelVariant → Pass
  type_variant unit_variant = idle
  type_variant (newtype_variant inner) = do put (text "; value: "); type_reference inner
  type_variant (tuple_variant (and_type inner no_types)) = do
    put (text "; value: ")
    type_reference inner
  type_variant (tuple_variant no_types) = do
    put (text "; value: ")
    type_list (type_items no_types true)
  type_variant (tuple_variant (and_type t (and_type u ts))) = do
    put (text "; value: ")
    type_list (type_items (and_type t (and_type u ts)) true)
  type_variant (struct_variant fields) = variant_fields fields
