-- ===== src/Js/Supported.antt =====
-- The schemas that web-rpc/src/js/code.rs can render: a reference to a declared type is rendered by name,
-- and what is rendered in place holds no `Schema`.
use web_rpc.Prelude.{Option, none, some, All, if◌then◌else◌}
use web_rpc.Js.Schema.{
  NamedType, DataModelType, NamedTypes, NamedValues, NamedVariants, DataModelVariant, named,
  type_of, no_types, and_type, no_fields, and_field, no_variants, and_variant, unit_variant,
  newtype_variant, tuple_variant, struct_variant,
}
use web_rpc.Js.Describe.{Desc, Return, Arg, Method, Service}
use web_rpc.Js.Decls.{Declarations, is_declared}

unfoldable mutual
  pub Supported : NamedType → Type 0
  Supported (named name ty) = if is_declared (named name ty) then Unit else BodySupported ty

  pub TypesSupported : NamedTypes → Type 0
  TypesSupported no_types = Unit
  TypesSupported (and_type t ts) = Supported t × TypesSupported ts

  pub FieldsSupported : NamedValues → Type 0
  FieldsSupported no_fields = Unit
  FieldsSupported (and_field name t fields) = Supported t × FieldsSupported fields

  pub BodySupported : DataModelType → Type 0
  BodySupported DataModelType.schema = ⊥
  BodySupported (DataModelType.option t) = Supported t
  BodySupported (DataModelType.newtype_struct t) = Supported t
  BodySupported (DataModelType.seq t) = Supported t
  BodySupported (DataModelType.tuple ts) = TypesSupported ts
  BodySupported (DataModelType.tuple_struct ts) = TypesSupported ts
  BodySupported (DataModelType.map key val) = Supported key × Supported val
  BodySupported (DataModelType.struct fields) = FieldsSupported fields
  BodySupported (DataModelType.enum variants) = VariantsSupported variants
  BodySupported _ = Unit

  pub VariantsSupported : NamedVariants → Type 0
  VariantsSupported no_variants = Unit
  VariantsSupported (and_variant name v variants) = VariantSupported v × VariantsSupported variants

  pub VariantSupported : DataModelVariant → Type 0
  VariantSupported unit_variant = Unit
  VariantSupported (newtype_variant t) = Supported t
  VariantSupported (tuple_variant ts) = TypesSupported ts
  VariantSupported (struct_variant fields) = FieldsSupported fields

unfoldable pub DescSupported : Desc → Type 0
DescSupported (Desc.js name transfer) = Unit
DescSupported (Desc.postcard t) = Supported t
DescSupported (Desc.inline t) = Supported t
DescSupported (Desc.option inner) = DescSupported inner
DescSupported (Desc.result o e) = DescSupported o × DescSupported e

abbrev pub ReturnSupported : Return → Type 0
ReturnSupported Return.notify = Unit
ReturnSupported (Return.value desc) = DescSupported desc
ReturnSupported (Return.stream desc) = DescSupported desc

abbrev pub MethodSupported : Method → Type 0
MethodSupported m = All (λ (a : Arg). DescSupported a.desc) m.args × ReturnSupported m.ret

abbrev pub ServiceSupported : Option Service → Type 0
ServiceSupported none = Unit
ServiceSupported (some s) = All (All MethodSupported) s.methods

abbrev pub DeclarationsSupported : Declarations → Type 0
DeclarationsSupported ds = All (λ (d : NamedType). BodySupported (type_of d)) ds
