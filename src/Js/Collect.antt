-- ===== src/Js/Collect.antt =====
-- web-rpc/src/js/decls.rs: the walk over everything that an endpoint reaches.
use web_rpc.Prelude.{
  Bool, true, false, ◌||◌, Option, none, some, String, List, [], ◌∷◌, Outcome, ok, panic, ◌>>=◌,
  if◌then◌else◌, text,
}
use web_rpc.Js.Names.{str_eq, any_eq}
use web_rpc.Js.Schema.{
  NamedType, DataModelType, NamedTypes, NamedValues, NamedVariants, DataModelVariant, named,
  name_of, type_of, no_types, and_type, no_fields, and_field, no_variants, and_variant,
  unit_variant, newtype_variant, tuple_variant, struct_variant,
}
use web_rpc.Js.Describe.{Desc, Return, Arg, Method, Service, Endpoint}
use web_rpc.Js.Decls.{Declarations, get, push, is_declared, named_type_eq, equality_depth}

abbrev pub reserved_type_names : List String
reserved_type_names = "Request" ∷ "Subscription" ∷ "Endpoint" ∷ []

unfoldable pub has_tag : NamedValues → Bool
has_tag no_fields = false
has_tag (and_field name t fields) = if str_eq name (text "tag") then true else has_tag fields

unfoldable pub variants_have_tag : NamedVariants → Bool
unfolding has_tag
variants_have_tag no_variants = false
variants_have_tag (and_variant name (struct_variant fields) variants) =
    has_tag fields || variants_have_tag variants
variants_have_tag (and_variant name _ variants) = variants_have_tag variants

abbrev tag_collides : DataModelType → Bool
tag_collides (DataModelType.enum variants) = variants_have_tag variants
tag_collides _ = false

-- `true` where the source does not panic.
unfoldable pub validate : NamedType → Bool
validate t =
    if any_eq (name_of t) reserved_type_names
    then false
    else if tag_collides (type_of t)
    then false
    else true

-- What is done at a type before its parts are walked by `children`.
unfoldable pub visit :
    Declarations → NamedType → (Declarations → Outcome Declarations) → Outcome Declarations
visit ds t children =
    if is_declared t
    then elim (get ds (name_of t)) [
      | some existing ↦ if named_type_eq existing t equality_depth then ok ds else panic
      | none ↦ if validate t then push ds t >>= children else panic
    ]
    else children ds

unfoldable mutual
  pub collect_named_type : Declarations → NamedType → Outcome Declarations
  collect_named_type ds (named name ty) = visit ds (named name ty) (λ ds'. collect_type ds' ty)

  pub collect_named_types : Declarations → NamedTypes → Outcome Declarations
  collect_named_types ds no_types = ok ds
  collect_named_types ds (and_type t ts) =
      collect_named_type ds t >>= λ ds'. collect_named_types ds' ts

  pub collect_fields : Declarations → NamedValues → Outcome Declarations
  collect_fields ds no_fields = ok ds
  collect_fields ds (and_field name t fields) =
      collect_named_type ds t >>= λ ds'. collect_fields ds' fields

  pub collect_type : Declarations → DataModelType → Outcome Declarations
  collect_type ds (DataModelType.option t) = collect_named_type ds t
  collect_type ds (DataModelType.newtype_struct t) = collect_named_type ds t
  collect_type ds (DataModelType.seq t) = collect_named_type ds t
  collect_type ds (DataModelType.tuple ts) = collect_named_types ds ts
  collect_type ds (DataModelType.tuple_struct ts) = collect_named_types ds ts
  collect_type ds (DataModelType.map key val) =
      collect_named_type ds key >>= λ ds'. collect_named_type ds' val
  collect_type ds (DataModelType.struct fields) = collect_fields ds fields
  collect_type ds (DataModelType.enum variants) = collect_variants ds variants
  collect_type ds _ = ok ds

  -- The loop over an enum's variants.
  pub collect_variants : Declarations → NamedVariants → Outcome Declarations
  collect_variants ds no_variants = ok ds
  collect_variants ds (and_variant name v variants) =
      collect_variant ds v >>= λ ds'. collect_variants ds' variants

  pub collect_variant : Declarations → DataModelVariant → Outcome Declarations
  collect_variant ds unit_variant = ok ds
  collect_variant ds (newtype_variant t) = collect_named_type ds t
  collect_variant ds (tuple_variant ts) = collect_named_types ds ts
  collect_variant ds (struct_variant fields) = collect_fields ds fields

unfoldable pub collect_desc : Declarations → Desc → Outcome Declarations
collect_desc ds (Desc.js name transfer) = ok ds
collect_desc ds (Desc.postcard t) = collect_named_type ds t
collect_desc ds (Desc.inline t) = collect_named_type ds t
collect_desc ds (Desc.option inner) = collect_desc ds inner
collect_desc ds (Desc.result o e) = collect_desc ds o >>= λ ds'. collect_desc ds' e

unfoldable pub collect_args : Declarations → List Arg → Outcome Declarations
collect_args ds [] = ok ds
collect_args ds (a ∷ args) = collect_desc ds a.desc >>= λ ds'. collect_args ds' args

abbrev pub collect_return : Declarations → Return → Outcome Declarations
collect_return ds Return.notify = ok ds
collect_return ds (Return.value desc) = collect_desc ds desc
collect_return ds (Return.stream desc) = collect_desc ds desc

unfoldable pub collect_group : Declarations → List Method → Outcome Declarations
unfolding collect_args
collect_group ds [] = ok ds
collect_group ds (m ∷ ms) = do
  ds₁ ← collect_args ds m.args
  ds₂ ← collect_return ds₁ m.ret
  collect_group ds₂ ms

unfoldable pub collect_groups : Declarations → List (List Method) → Outcome Declarations
unfolding collect_group
collect_groups ds [] = ok ds
collect_groups ds (g ∷ gs) = collect_group ds g >>= λ ds'. collect_groups ds' gs

unfoldable pub collect_service : Declarations → Service → Outcome Declarations
unfolding collect_groups
collect_service ds s = collect_groups ds s.methods

abbrev pub collect_half : Option Service → Declarations → Outcome Declarations
collect_half none ds = ok ds
collect_half (some s) ds = collect_service ds s

unfoldable pub collect : Endpoint → Outcome Declarations
collect e = collect_half e.service [] >>= collect_half e.client
