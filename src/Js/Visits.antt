-- ===== src/Js/Visits.antt =====
-- What the walk of web-rpc/src/js/decls.rs does at one type, and what it makes of the declarations.
use web_rpc.Prelude.{
  ◌≡◌, true, false, none, some, inl, inr, Outcome, ok, panic, >>=-eq-ok, Bool-cases, Option-cases,
}
use web_rpc.Js.Schema.{NamedType, name_of}
use web_rpc.Js.Decls.{Declarations, get, push, is_declared, named_type_eq, equality_depth}
use web_rpc.Js.Collect.{validate, visit}

-- The ways in which a visit succeeds.
pub data Visited (ds : Declarations) (t : NamedType)
    (children : Declarations → Outcome Declarations) (out : Declarations) : Type 0 where
  known :
      (d : NamedType)
      → is_declared t ≡ true
      → get ds (name_of t) ≡ some d
      → named_type_eq d t equality_depth ≡ true
      → ds ≡ out
      → Visited ds t children out
  added :
      (grown : Declarations)
      → is_declared t ≡ true
      → get ds (name_of t) ≡ none
      → validate t ≡ true
      → push ds t ≡ ok grown
      → children grown ≡ ok out
      → Visited ds t children out
  inlined : is_declared t ≡ false → children ds ≡ ok out → Visited ds t children out

pub visit-Visited :
    (ds : Declarations) (t : NamedType) (children : Declarations → Outcome Declarations)
    {out : Declarations}
    → visit ds t children ≡ ok out
    → Visited ds t children out
unfolding visit
visit-Visited ds t children {out} h = elim (Bool-cases (is_declared t)) [
  | inr off ↦ inlined off (rw off at h)
  | inl on ↦ elim (Option-cases (get ds (name_of t))) [
    | inl unknown ↦ elim (Bool-cases (validate t)) [
      | inl fine ↦
          let (grown, e, g) = >>=-eq-ok (push ds t) children (rw (on, unknown, fine) at h) in
          added grown on unknown fine e g
      | inr bad ↦ absurd (
          let clash : ◌≡◌ {A = Outcome Declarations} panic (ok out) = rw (on, unknown, bad) at h in
          cc)
    ]
    | inr (d, here) ↦ elim (Bool-cases (named_type_eq d t equality_depth)) [
      | inl same ↦ known d on here same (
          let kept : ◌≡◌ {A = Outcome Declarations} (ok ds) (ok out) = rw (on, here, same) at h in
          cc)
      | inr other ↦ absurd (
          let clash : ◌≡◌ {A = Outcome Declarations} panic (ok out) = rw (on, here, other) at h in
          cc)
    ]
  ]
]
