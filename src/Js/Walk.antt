-- ===== src/Js/Walk.antt =====
-- The walk of web-rpc/src/js/decls.rs over one type: all that it has passed resolves.
use web_rpc.Prelude.{◌≡◌, subst, Outcome, ok, >>=-eq-ok}
use web_rpc.Js.Schema.{
  NamedType, DataModelType, NamedTypes, NamedValues, NamedVariants, DataModelVariant, named,
  no_types, and_type, no_fields, and_field, no_variants, and_variant, unit_variant, newtype_variant,
  tuple_variant, struct_variant,
}
use web_rpc.Js.Decls.{Declarations}
use web_rpc.Js.Collect.{
  collect_named_type, collect_named_types, collect_fields, collect_type, collect_variants,
  collect_variant,
}
use web_rpc.Js.Visits.{visit-Visited}
use web_rpc.Js.Resolves.{
  Resolves, TypesResolve, FieldsResolve, BodyResolves, VariantsResolve, VariantResolves,
  VariantResolves-append,
}
use web_rpc.Js.Closure.{Grown, Grown-refl, Grown-trans, Grown-Resolves, Visited-Grown}

pub unchanged :
    {ds out : Declarations} → ◌≡◌ {A = Outcome Declarations} (ok ds) (ok out) → Grown ds out
unchanged {ds} {out} h = subst (Grown ds) (let same : ds ≡ out = cc in same) (Grown-refl ds)

Grown-VariantResolves :
    {ds out : Declarations} (v : DataModelVariant)
    → Grown ds out
    → VariantResolves ds v
    → VariantResolves out v
Grown-VariantResolves {ds} v g h =
    subst (λ xs. VariantResolves xs v) g.split (VariantResolves-append ds g.new v h)

mutual
  unfolding collect_named_type collect_named_types collect_fields collect_type collect_variants
      collect_variant TypesResolve FieldsResolve BodyResolves VariantsResolve VariantResolves

  pub collect_named_type-Grown :
      (ds : Declarations) (t : NamedType) {out : Declarations}
      → collect_named_type ds t ≡ ok out
      → Grown ds out × Resolves out t
  collect_named_type-Grown ds (named name ty) h =
      Visited-Grown ds (named name ty) (λ mid. collect_type mid ty)
        (λ mid e. collect_type-Grown mid ty e)
        (visit-Visited ds (named name ty) (λ mid. collect_type mid ty) h)

  collect_named_types-Grown :
      (ds : Declarations) (ts : NamedTypes) {out : Declarations}
      → collect_named_types ds ts ≡ ok out
      → Grown ds out × TypesResolve out ts
  collect_named_types-Grown ds no_types h = (unchanged h, tt)
  collect_named_types-Grown ds (and_type t ts) h =
      let (mid, e, f) = >>=-eq-ok (collect_named_type ds t) _ h in
      let (g, r) = collect_named_type-Grown ds t e in
      let (g', rs) = collect_named_types-Grown mid ts f in
      (Grown-trans g g', (Grown-Resolves t g' r, rs))

  collect_fields-Grown :
      (ds : Declarations) (fields : NamedValues) {out : Declarations}
      → collect_fields ds fields ≡ ok out
      → Grown ds out × FieldsResolve out fields
  collect_fields-Grown ds no_fields h = (unchanged h, tt)
  collect_fields-Grown ds (and_field name t fields) h =
      let (mid, e, f) = >>=-eq-ok (collect_named_type ds t) _ h in
      let (g, r) = collect_named_type-Grown ds t e in
      let (g', rs) = collect_fields-Grown mid fields f in
      (Grown-trans g g', (Grown-Resolves t g' r, rs))

  collect_type-Grown :
      (ds : Declarations) (ty : DataModelType) {out : Declarations}
      → collect_type ds ty ≡ ok out
      → Grown ds out × BodyResolves out ty
  collect_type-Grown ds (DataModelType.option t) h = collect_named_type-Grown ds t h
  collect_type-Grown ds (DataModelType.newtype_struct t) h = collect_named_type-Grown ds t h
  collect_type-Grown ds (DataModelType.seq t) h = collect_named_type-Grown ds t h
  collect_type-Grown ds (DataModelType.tuple ts) h = collect_named_types-Grown ds ts h
  collect_type-Grown ds (DataModelType.tuple_struct ts) h = collect_named_types-Grown ds ts h
  collect_type-Grown ds (DataModelType.map key val) h =
      let (mid, e, f) = >>=-eq-ok (collect_named_type ds key) _ h in
      let (g, r) = collect_named_type-Grown ds key e in
      let (g', r') = collect_named_type-Grown mid val f in
      (Grown-trans g g', (Grown-Resolves key g' r, r'))
  collect_type-Grown ds (DataModelType.struct fields) h = collect_fields-Grown ds fields h
  collect_type-Grown ds (DataModelType.enum variants) h = collect_variants-Grown ds variants h
  collect_type-Grown ds _ h = (unchanged h, tt)

  collect_variants-Grown :
      (ds : Declarations) (variants : NamedVariants) {out : Declarations}
      → collect_variants ds variants ≡ ok out
      → Grown ds out × VariantsResolve out variants
  collect_variants-Grown ds no_variants h = (unchanged h, tt)
  collect_variants-Grown ds (and_variant name v variants) h =
      let (mid, e, f) = >>=-eq-ok (collect_variant ds v) _ h in
      let (g, r) = collect_variant-Grown ds v e in
      let (g', rs) = collect_variants-Grown mid variants f in
      (Grown-trans g g', (Grown-VariantResolves v g' r, rs))

  collect_variant-Grown :
      (ds : Declarations) (v : DataModelVariant) {out : Declarations}
      → collect_variant ds v ≡ ok out
      → Grown ds out × VariantResolves out v
  collect_variant-Grown ds unit_variant h = (unchanged h, tt)
  collect_variant-Grown ds (newtype_variant t) h = collect_named_type-Grown ds t h
  collect_variant-Grown ds (tuple_variant ts) h = collect_named_types-Grown ds ts h
  collect_variant-Grown ds (struct_variant fields) h = collect_fields-Grown ds fields h
