-- ===== src/Js/Closure.antt =====
-- What the walk of web-rpc/src/js/decls.rs has collected when it ends.
use web_rpc.Prelude.{
  ◌≡◌, ◌≢◌, sym, ap, ◌∙◌, subst, true, false, none, some, [], ◌∷◌, ◌++◌, append_assoc, append-nil,
  Outcome, ok, length, All, All-append, All-mono, arith, Text,
}
use web_rpc.Js.Schema.{NamedType, named, name_of, type_of}
use web_rpc.Js.Decls.{Declarations, get, push, is_declared, max_declarations}
use web_rpc.Js.Collect.{validate}
use web_rpc.Js.Equal.{named_type_eq_self, str_eq_self}
use web_rpc.Js.Visits.{Visited, known, added, inlined}
use web_rpc.Js.Resolves.{
  IsNamed, Resolves, BodyResolves, Resolves-append, BodyResolves-append, get-append,
}

-- New declarations on top of others, each of a valid container with a name that was free.
unfoldable pub Accepted : Declarations → Declarations → Type 0
Accepted ds [] = Unit
Accepted ds (d ∷ new) =
    (is_declared d ≡ true)
    × (validate d ≡ true)
    × (get ds (name_of d) ≡ none)
    × (length ds ≢ max_declarations)
    × Accepted (ds ++ d ∷ []) new

-- What the collection has added, and that it is closed under references.
pub record Grown (ds out : Declarations) : Type 0 where
  pub new : Declarations
  pub split : ds ++ new ≡ out
  pub accepted : Accepted ds new
  pub closed : All (λ d. BodyResolves out (type_of d)) new

Accepted-append :
    (ds xs ys : Declarations) → Accepted ds xs → Accepted (ds ++ xs) ys → Accepted ds (xs ++ ys)
unfolding Accepted
Accepted-append ds [] ys h k = rw (append-nil ds) at k
Accepted-append ds (x ∷ xs) ys (on, fine, free, room, h) k = (
  on,
  fine,
  free,
  room,
  Accepted-append (ds ++ x ∷ []) xs ys h
      (subst (λ zs. Accepted zs ys) (sym (append_assoc ds (x ∷ []) xs)) k),
)

pub Grown-refl : (ds : Declarations) → Grown ds ds
unfolding Accepted
Grown-refl ds = record { new = []; split = append-nil ds; accepted = tt; closed = tt }

pub Grown-trans : {ds mid out : Declarations} → Grown ds mid → Grown mid out → Grown ds out
Grown-trans {ds} {mid} {out} a b = record {
  new = a.new ++ b.new;
  split = sym (append_assoc ds a.new b.new) ∙ ap (λ xs. xs ++ b.new) a.split ∙ b.split;
  accepted =
      Accepted-append ds a.new b.new a.accepted
        (subst (λ xs. Accepted xs b.new) (sym a.split) b.accepted);
  closed =
      All-append _ a.new b.new
        (All-mono _ _
          (λ d h.
            subst (λ xs. BodyResolves xs (type_of d)) b.split
              (BodyResolves-append mid b.new (type_of d) h))
          a.new a.closed)
        b.closed;
}

pub Grown-Resolves :
    {ds out : Declarations} (t : NamedType) → Grown ds out → Resolves ds t → Resolves out t
Grown-Resolves {ds} t g h = subst (λ xs. Resolves xs t) g.split (Resolves-append ds g.new t h)

push-eq-ok :
    (ds : Declarations) (t : NamedType) {grown : Declarations}
    → push ds t ≡ ok grown
    → (length ds ≢ max_declarations) × (ds ++ t ∷ [] ≡ grown)
unfolding push
push-eq-ok ds t h = ground arith

-- A pushed type, after its parts.
push-Grown :
    (ds : Declarations) (t : NamedType) {grown out : Declarations}
    → is_declared t ≡ true
    → validate t ≡ true
    → get ds (name_of t) ≡ none
    → push ds t ≡ ok grown
    → Grown grown out
    → BodyResolves out (type_of t)
    → Grown ds out
unfolding Accepted
push-Grown ds t {grown} {out} on fine free e g body =
    let (room, same) = push-eq-ok ds t e in
    let rest : Grown (ds ++ t ∷ []) out = subst (λ xs. Grown xs out) (sym same) g in
    record {
      new = t ∷ rest.new;
      split = sym (append_assoc ds (t ∷ []) rest.new) ∙ rest.split;
      accepted = (on, fine, free, room, rest.accepted);
      closed = (body, rest.closed);
    }

Resolves_IsNamed :
    (ds : Declarations) (t : NamedType) → is_declared t ≡ true → IsNamed ds t → Resolves ds t
unfolding Resolves
Resolves_IsNamed ds (named name ty) on h = rw on h

Resolves_inlined :
    (ds : Declarations) (t : NamedType)
    → is_declared t ≡ false
    → BodyResolves ds (type_of t)
    → Resolves ds t
unfolding Resolves
Resolves_inlined ds (named name ty) off h = rw off h

pub get-pushed :
    (ds : Declarations) (t : NamedType)
    → get ds (name_of t) ≡ none
    → get (ds ++ t ∷ []) (name_of t) ≡ some t
unfolding get
get-pushed [] t h = ground (arith, str_eq_self (name_of t))
get-pushed (d ∷ ds) t h = ground (arith, get-pushed ds t)

Grown-get :
    {ds out : Declarations} (name : Text) (d : NamedType)
    → Grown ds out
    → get ds name ≡ some d
    → get out name ≡ some d
Grown-get {ds} name d g h =
    subst (λ xs. get xs name ≡ some d) g.split (get-append ds g.new name d h)

-- One visit, given what its parts come to.
pub Visited-Grown :
    (ds : Declarations) (t : NamedType) (children : Declarations → Outcome Declarations)
    {out : Declarations}
    → ((mid : Declarations) → children mid ≡ ok out → Grown mid out × BodyResolves out (type_of t))
    → Visited ds t children out
    → Grown ds out × Resolves out t
Visited-Grown ds t children {out} parts (known d on here same e) = (
  subst (Grown ds) e (Grown-refl ds),
  Resolves_IsNamed out t on (subst (λ xs. IsNamed xs t) e (d, here, same)),
)
Visited-Grown ds t children {out} parts (inlined off e) =
    let (g, body) = parts ds e in (g, Resolves_inlined out t off body)
Visited-Grown ds t children {out} parts (added grown on free fine e f) =
    let (g, body) = parts grown f in
    (
      push-Grown ds t on fine free e g body,
      Resolves_IsNamed out t on (
        t,
        Grown-get (name_of t) t g (
            subst (λ xs. get xs (name_of t) ≡ some t) (push-eq-ok ds t e).1 (get-pushed ds t free)),
        named_type_eq_self t _,
      ),
    )
