-- ===== src/Js/Resolves.antt =====
-- The references to declared types that web-rpc/src/js/code.rs and web-rpc/src/js/dts.rs render, and
-- whether declarations hold what they name.
use web_rpc.Prelude.{
  ◌≡◌, true, Option, none, some, inl, inr, [], ◌∷◌, ◌++◌, Bool-cases, if◌then◌else◌, All, All-mono,
  arith, Text,
}
use web_rpc.Js.Schema.{
  NamedType, DataModelType, NamedTypes, NamedValues, NamedVariants, DataModelVariant, named,
  name_of, no_types, and_type, no_fields, and_field, no_variants, and_variant, unit_variant,
  newtype_variant, tuple_variant, struct_variant,
}
use web_rpc.Js.Describe.{Desc, Return, Arg, Method, Service}
use web_rpc.Js.Decls.{Declarations, get, is_declared, named_type_eq, equality_depth}

-- The name of a type is that of a declaration that the collection took to be the same type.
abbrev pub IsNamed : Declarations → NamedType → Type 0
IsNamed ds t =
    (d : NamedType) × (get ds (name_of t) ≡ some d) × (named_type_eq d t equality_depth ≡ true)

-- A reference to a type resolves: by its name where it is declared, else by the parts of its body.
unfoldable mutual
  pub Resolves : Declarations → NamedType → Type 0
  Resolves ds (named name ty) =
      if is_declared (named name ty) then IsNamed ds (named name ty) else BodyResolves ds ty

  pub TypesResolve : Declarations → NamedTypes → Type 0
  TypesResolve ds no_types = Unit
  TypesResolve ds (and_type t ts) = Resolves ds t × TypesResolve ds ts

  pub FieldsResolve : Declarations → NamedValues → Type 0
  FieldsResolve ds no_fields = Unit
  FieldsResolve ds (and_field name t fields) = Resolves ds t × FieldsResolve ds fields

  pub BodyResolves : Declarations → DataModelType → Type 0
  BodyResolves ds (DataModelType.option t) = Resolves ds t
  BodyResolves ds (DataModelType.newtype_struct t) = Resolves ds t
  BodyResolves ds (DataModelType.seq t) = Resolves ds t
  BodyResolves ds (DataModelType.tuple ts) = TypesResolve ds ts
  BodyResolves ds (DataModelType.tuple_struct ts) = TypesResolve ds ts
  BodyResolves ds (DataModelType.map key val) = Resolves ds key × Resolves ds val
  BodyResolves ds (DataModelType.struct fields) = FieldsResolve ds fields
  BodyResolves ds (DataModelType.enum variants) = VariantsResolve ds variants
  BodyResolves ds _ = Unit

  pub VariantsResolve : Declarations → NamedVariants → Type 0
  VariantsResolve ds no_variants = Unit
  VariantsResolve ds (and_variant name v variants) =
      VariantResolves ds v × VariantsResolve ds variants

  pub VariantResolves : Declarations → DataModelVariant → Type 0
  VariantResolves ds unit_variant = Unit
  VariantResolves ds (newtype_variant t) = Resolves ds t
  VariantResolves ds (tuple_variant ts) = TypesResolve ds ts
  VariantResolves ds (struct_variant fields) = FieldsResolve ds fields

unfoldable pub DescResolves : Declarations → Desc → Type 0
DescResolves ds (Desc.js name transfer) = Unit
DescResolves ds (Desc.postcard t) = Resolves ds t
DescResolves ds (Desc.inline t) = Resolves ds t
DescResolves ds (Desc.option inner) = DescResolves ds inner
DescResolves ds (Desc.result o e) = DescResolves ds o × DescResolves ds e

abbrev pub ReturnResolves : Declarations → Return → Type 0
ReturnResolves ds Return.notify = Unit
ReturnResolves ds (Return.value desc) = DescResolves ds desc
ReturnResolves ds (Return.stream desc) = DescResolves ds desc

abbrev pub MethodResolves : Declarations → Method → Type 0
MethodResolves ds m = All (λ (a : Arg). DescResolves ds a.desc) m.args × ReturnResolves ds m.ret

abbrev pub ServiceResolves : Declarations → Option Service → Type 0
ServiceResolves ds none = Unit
ServiceResolves ds (some s) = All (All (MethodResolves ds)) s.methods

pub get-append :
    (ds new : Declarations) (name : Text) (d : NamedType)
    → get ds name ≡ some d
    → get (ds ++ new) name ≡ some d
unfolding get
get-append [] new name d h = cc
get-append (e ∷ ds) new name d h = ground (arith, get-append ds new name d)

-- More declarations resolve no less.
mutual
  unfolding Resolves TypesResolve FieldsResolve BodyResolves VariantsResolve VariantResolves

  pub Resolves-append :
      (ds new : Declarations) (t : NamedType) → Resolves ds t → Resolves (ds ++ new) t
  Resolves-append ds new (named name ty) h = elim (Bool-cases (is_declared (named name ty))) [
    | inl on ↦
        let (d, e, same) : IsNamed ds (named name ty) = rw on at h in
        rw on (d, get-append ds new name d e, same)
    | inr off ↦ rw off (BodyResolves-append ds new ty (rw off at h))
  ]

  TypesResolve-append :
      (ds new : Declarations) (ts : NamedTypes) → TypesResolve ds ts → TypesResolve (ds ++ new) ts
  TypesResolve-append ds new no_types h = tt
  TypesResolve-append ds new (and_type t ts) h =
      (Resolves-append ds new t h.0, TypesResolve-append ds new ts h.1)

  FieldsResolve-append :
      (ds new : Declarations) (fields : NamedValues)
      → FieldsResolve ds fields
      → FieldsResolve (ds ++ new) fields
  FieldsResolve-append ds new no_fields h = tt
  FieldsResolve-append ds new (and_field name t fields) h =
      (Resolves-append ds new t h.0, FieldsResolve-append ds new fields h.1)

  pub BodyResolves-append :
      (ds new : Declarations) (ty : DataModelType)
      → BodyResolves ds ty
      → BodyResolves (ds ++ new) ty
  BodyResolves-append ds new (DataModelType.option t) h = Resolves-append ds new t h
  BodyResolves-append ds new (DataModelType.newtype_struct t) h = Resolves-append ds new t h
  BodyResolves-append ds new (DataModelType.seq t) h = Resolves-append ds new t h
  BodyResolves-append ds new (DataModelType.tuple ts) h = TypesResolve-append ds new ts h
  BodyResolves-append ds new (DataModelType.tuple_struct ts) h = TypesResolve-append ds new ts h
  BodyResolves-append ds new (DataModelType.map key val) h =
      (Resolves-append ds new key h.0, Resolves-append ds new val h.1)
  BodyResolves-append ds new (DataModelType.struct fields) h = FieldsResolve-append ds new fields h
  BodyResolves-append ds new (DataModelType.enum variants) h =
      VariantsResolve-append ds new variants h
  BodyResolves-append ds new _ h = h

  VariantsResolve-append :
      (ds new : Declarations) (variants : NamedVariants)
      → VariantsResolve ds variants
      → VariantsResolve (ds ++ new) variants
  VariantsResolve-append ds new no_variants h = tt
  VariantsResolve-append ds new (and_variant name v variants) h =
      (VariantResolves-append ds new v h.0, VariantsResolve-append ds new variants h.1)

  pub VariantResolves-append :
      (ds new : Declarations) (v : DataModelVariant)
      → VariantResolves ds v
      → VariantResolves (ds ++ new) v
  VariantResolves-append ds new unit_variant h = tt
  VariantResolves-append ds new (newtype_variant t) h = Resolves-append ds new t h
  VariantResolves-append ds new (tuple_variant ts) h = TypesResolve-append ds new ts h
  VariantResolves-append ds new (struct_variant fields) h = FieldsResolve-append ds new fields h

pub DescResolves-append :
    (ds new : Declarations) (desc : Desc) → DescResolves ds desc → DescResolves (ds ++ new) desc
unfolding DescResolves
DescResolves-append ds new (Desc.js name transfer) h = tt
DescResolves-append ds new (Desc.postcard t) h = Resolves-append ds new t h
DescResolves-append ds new (Desc.inline t) h = Resolves-append ds new t h
DescResolves-append ds new (Desc.option inner) h = DescResolves-append ds new inner h
DescResolves-append ds new (Desc.result o e) h =
    (DescResolves-append ds new o h.0, DescResolves-append ds new e h.1)

ReturnResolves-append :
    (ds new : Declarations) (ret : Return) → ReturnResolves ds ret → ReturnResolves (ds ++ new) ret
ReturnResolves-append ds new Return.notify h = tt
ReturnResolves-append ds new (Return.value desc) h = DescResolves-append ds new desc h
ReturnResolves-append ds new (Return.stream desc) h = DescResolves-append ds new desc h

pub MethodResolves-append :
    (ds new : Declarations) (m : Method) → MethodResolves ds m → MethodResolves (ds ++ new) m
MethodResolves-append ds new m h = (
  All-mono _ _ (λ (a : Arg) k. DescResolves-append ds new a.desc k) m.args h.0,
  ReturnResolves-append ds new m.ret h.1,
)

pub ServiceResolves-append :
    (ds new : Declarations) (s : Option Service)
    → ServiceResolves ds s
    → ServiceResolves (ds ++ new) s
ServiceResolves-append ds new none h = tt
ServiceResolves-append ds new (some s) h =
    All-mono _ _ (λ g. All-mono _ _ (MethodResolves-append ds new) g) s.methods h
