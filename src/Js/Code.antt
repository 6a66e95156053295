-- ===== src/Js/Code.antt =====
-- web-rpc/src/js/code.rs: how the Javascript renderer writes schemas and wire descriptions.
use web_rpc.Prelude.{Bool, true, false, [], ◌∷◌, if◌then◌else◌, Text, text}
use web_rpc.Js.Output.{Pass, ◌>>◌, idle, fail, put, put_quoted, indent}
use web_rpc.Js.Schema.{
  NamedType, DataModelType, NamedTypes, NamedValues, NamedVariants, DataModelVariant, named,
  name_of, type_of, no_types, and_type, no_fields, and_field, no_variants, and_variant,
  unit_variant, newtype_variant, tuple_variant, struct_variant,
}
use web_rpc.Js.Describe.{Desc}
use web_rpc.Js.Decls.{Declarations, is_declared}

-- What stands between the elements of a list.
abbrev pub separator : Bool → Text → Pass
separator true t = idle
separator false t = put t

-- The reference to a declared type.
abbrev pub schema_name : Text → Pass
schema_name name = do put (text "{ kind: \"ref\", name: "); put_quoted name; put (text " }")

-- `schema_list`, the tuple branch and `schema_fields`, given their loop.
abbrev pub schema_list : Pass → Pass
schema_list items = do put (text "["); items; put (text "]")

abbrev pub schema_tuple : Pass → Pass
schema_tuple items = do put (text "{ kind: \"tuple\", items: "); schema_list items; put (text " }")

abbrev pub schema_fields : Pass → Pass
schema_fields items = do put (text "{ kind: \"struct\", fields: ["); items; put (text "] }")

-- `first` holds before the element of index 0.
unfoldable mutual
  pub schema_reference : NamedType → Pass
  schema_reference (named name ty) =
      if is_declared (named name ty) then schema_name name else schema_body ty

  -- The loop of `schema_list`.
  pub schema_items : NamedTypes → Bool → Pass
  schema_items no_types first = idle
  schema_items (and_type t ts) first = do
    separator first (text ", ")
    schema_reference t
    schema_items ts false

  -- The loop of `schema_fields`.
  pub schema_field_items : NamedValues → Bool → Pass
  schema_field_items no_fields first = idle
  schema_field_items (and_field name t fields) first = do
    separator first (text ", ")
    put (text "[")
    put_quoted name
    put (text ", ")
    schema_reference t
    put (text "]")
    schema_field_items fields false

  pub schema_body : DataModelType → Pass
  schema_body DataModelType.bool = put (text "\"bool\"")
  schema_body DataModelType.u8 = put (text "\"u8\"")
  schema_body DataModelType.i8 = put (text "\"i8\"")
  schema_body DataModelType.u16 = put (text "\"u16\"")
  schema_body DataModelType.i16 = put (text "\"i16\"")
  schema_body DataModelType.u32 = put (text "\"u32\"")
  schema_body DataModelType.i32 = put (text "\"i32\"")
  schema_body DataModelType.u64 = put (text "\"u64\"")
  schema_body DataModelType.usize = put (text "\"u64\"")
  schema_body DataModelType.i64 = put (text "\"i64\"")
  schema_body DataModelType.isize = put (text "\"i64\"")
  schema_body DataModelType.u128 = put (text "\"u128\"")
  schema_body DataModelType.i128 = put (text "\"i128\"")
  schema_body DataModelType.f32 = put (text "\"f32\"")
  schema_body DataModelType.f64 = put (text "\"f64\"")
  schema_body DataModelType.char = put (text "\"char\"")
  schema_body DataModelType.string = put (text "\"string\"")
  schema_body DataModelType.byte_array = put (text "\"bytes\"")
  schema_body DataModelType.unit = put (text "\"unit\"")
  schema_body DataModelType.unit_struct = put (text "\"unit\"")
  schema_body DataModelType.schema = fail
  schema_body (DataModelType.option inner) = do
    put (text "{ kind: \"option\", inner: ")
    schema_reference inner
    put (text " }")
  schema_body (DataModelType.newtype_struct inner) = schema_reference inner
  schema_body (DataModelType.seq inner) = do
    put (text "{ kind: \"seq\", inner: ")
    schema_reference inner
    put (text " }")
  schema_body (DataModelType.tuple ts) = schema_tuple (schema_items ts true)
  schema_body (DataModelType.tuple_struct ts) = schema_tuple (schema_items ts true)
  schema_body (DataModelType.map key val) = do
    put (text "{ kind: \"map\", key: ")
    schema_reference key
    put (text ", value: ")
    schema_reference val
    put (text " }")
  schema_body (DataModelType.struct fields) = schema_fields (schema_field_items fields true)
  schema_body (DataModelType.enum variants) = do
    put (text "{ kind: \"enum\", variants: [")
    schema_variants variants true
    put (text "] }")

  -- The loop over an enum's variants.
  pub schema_variants : NamedVariants → Bool → Pass
  schema_variants no_variants first = idle
  schema_variants (and_variant name v variants) first = do
    separator first (text ", ")
    put (text "[")
    put_quoted name
    put (text ", ")
    schema_variant v
    put (text "]")
    schema_variants variants false

  -- A tuple variant of one element is a newtype variant.
  pub schema_variant : DataModelVariant → Pass
  schema_variant unit_variant = put (text "\"unit\"")
  schema_variant (newtype_variant inner) = do
    put (text "{ kind: \"newtype\", inner: ")
    schema_reference inner
    put (text " }")
  schema_variant (tuple_variant (and_type inner no_types)) = do
    put (text "{ kind: \"newtype\", inner: ")
    schema_reference inner
    put (text " }")
  schema_variant (tuple_variant no_types) = schema_tuple (schema_items no_types true)
  schema_variant (tuple_variant (and_type t (and_type u ts))) =
      schema_tuple (schema_items (and_type t (and_type u ts)) true)
  schema_variant (struct_variant fields) = schema_fields (schema_field_items fields true)

unfoldable pub wire_description : Desc → Pass
wire_description (Desc.js name transfer) = do
  put (text "{ kind: \"js\", transfer: ")
  put (if transfer then text "true" else text "false")
  put (text " }")
wire_description (Desc.postcard t) = do
  put (text "{ kind: \"postcard\", schema: ")
  schema_reference t
  put (text " }")
wire_description (Desc.inline t) = do
  put (text "{ kind: \"inline\", schema: ")
  schema_reference t
  put (text " }")
wire_description (Desc.option inner) = do
  put (text "{ kind: \"option\", inner: ")
  wire_description inner
  put (text " }")
wire_description (Desc.result o e) = do
  put (text "{ kind: \"result\", ok: ")
  wire_description o
  put (text ", err: ")
  wire_description e
  put (text " }")

-- The loop over the declarations.
unfoldable pub schema_entries : Declarations → Pass
schema_entries [] = idle
schema_entries (d ∷ ds) = do
  indent 1
  put (name_of d)
  put (text ": ")
  schema_body (type_of d)
  put (text ",\n")
  schema_entries ds
