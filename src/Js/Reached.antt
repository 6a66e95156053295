-- ===== src/Js/Reached.antt =====
-- What `collect` of web-rpc/src/js/decls.rs finds for an endpoint.
use web_rpc.Prelude.{
  ◌≡◌, ◌≤◌, subst, sym, append_assoc, append-nil, true, Option, none, some, List, [], ◌∷◌, ◌++◌, ok,
  >>=-eq-ok, length, length-append, All, All-mono, arith,
}
use web_rpc.Js.Schema.{NamedType, name_of, type_of}
use web_rpc.Js.Describe.{Desc, Return, Arg, Method, Service, Endpoint}
use web_rpc.Js.Decls.{Declarations, get, is_declared, max_declarations}
use web_rpc.Js.Collect.{
  validate, collect_desc, collect_args, collect_return, collect_group, collect_groups,
  collect_service, collect_half, collect,
}
use web_rpc.Js.Resolves.{
  BodyResolves, DescResolves, ReturnResolves, MethodResolves, ServiceResolves, get-append,
  DescResolves-append, MethodResolves-append, ServiceResolves-append,
}
use web_rpc.Js.Closure.{get-pushed, Grown, Accepted, Grown-trans}
use web_rpc.Js.Distinct.{HasDistinctNames, Accepted-HasDistinctNames}
use web_rpc.Js.Walk.{unchanged, collect_named_type-Grown}

-- A property of declarations that more declarations keep.
Grown-keeps :
    {ds out : Declarations} (P : Declarations → Type 0)
    → ((new : Declarations) → P ds → P (ds ++ new))
    → Grown ds out
    → P ds
    → P out
Grown-keeps {ds} P mono g h = subst P g.split (mono g.new h)

collect_desc-Grown :
    (ds : Declarations) (desc : Desc) {out : Declarations}
    → collect_desc ds desc ≡ ok out
    → Grown ds out × DescResolves out desc
unfolding collect_desc DescResolves
collect_desc-Grown ds (Desc.js name transfer) h = (unchanged h, tt)
collect_desc-Grown ds (Desc.postcard t) h = collect_named_type-Grown ds t h
collect_desc-Grown ds (Desc.inline t) h = collect_named_type-Grown ds t h
collect_desc-Grown ds (Desc.option inner) h = collect_desc-Grown ds inner h
collect_desc-Grown ds (Desc.result o e) h =
    let (mid, e₁, e₂) = >>=-eq-ok (collect_desc ds o) _ h in
    let (g, r) = collect_desc-Grown ds o e₁ in
    let (g', r') = collect_desc-Grown mid e e₂ in
    (
      Grown-trans g g',
      (Grown-keeps (λ xs. DescResolves xs o) (λ new. DescResolves-append mid new o) g' r, r'),
    )

collect_args-Grown :
    (ds : Declarations) (args : List Arg) {out : Declarations}
    → collect_args ds args ≡ ok out
    → Grown ds out × All (λ (a : Arg). DescResolves out a.desc) args
unfolding collect_args
collect_args-Grown ds [] h = (unchanged h, tt)
collect_args-Grown ds (a ∷ args) h =
    let (mid, e₁, e₂) = >>=-eq-ok (collect_desc ds a.desc) _ h in
    let (g, r) = collect_desc-Grown ds a.desc e₁ in
    let (g', rs) = collect_args-Grown mid args e₂ in
    (
      Grown-trans g g',
      (
        Grown-keeps (λ xs. DescResolves xs a.desc) (λ new. DescResolves-append mid new a.desc) g' r,
        rs,
      ),
    )

collect_return-Grown :
    (ds : Declarations) (ret : Return) {out : Declarations}
    → collect_return ds ret ≡ ok out
    → Grown ds out × ReturnResolves out ret
collect_return-Grown ds Return.notify h = (unchanged h, tt)
collect_return-Grown ds (Return.value desc) h = collect_desc-Grown ds desc h
collect_return-Grown ds (Return.stream desc) h = collect_desc-Grown ds desc h

collect_group-Grown :
    (ds : Declarations) (ms : List Method) {out : Declarations}
    → collect_group ds ms ≡ ok out
    → Grown ds out × All (MethodResolves out) ms
unfolding collect_group
collect_group-Grown ds [] h = (unchanged h, tt)
collect_group-Grown ds (m ∷ ms) h =
    let (mid₁, e₁, f) = >>=-eq-ok (collect_args ds m.args) _ h in
    let (mid₂, e₂, e₃) = >>=-eq-ok (collect_return mid₁ m.ret) _ f in
    let (g₁, rs₁) = collect_args-Grown ds m.args e₁ in
    let (g₂, r) = collect_return-Grown mid₁ m.ret e₂ in
    let (g₃, rs) = collect_group-Grown mid₂ ms e₃ in
    let rs₂ =
      All-mono _ _
        (λ (a : Arg) k.
          Grown-keeps (λ xs. DescResolves xs a.desc) (λ new. DescResolves-append mid₁ new a.desc) g₂
            k)
        m.args rs₁ in
    (
      Grown-trans g₁ (Grown-trans g₂ g₃),
      (
        Grown-keeps (λ xs. MethodResolves xs m) (λ new. MethodResolves-append mid₂ new m) g₃
            (rs₂, r),
        rs,
      ),
    )

collect_groups-Grown :
    (ds : Declarations) (gs : List (List Method)) {out : Declarations}
    → collect_groups ds gs ≡ ok out
    → Grown ds out × All (All (MethodResolves out)) gs
unfolding collect_groups
collect_groups-Grown ds [] h = (unchanged h, tt)
collect_groups-Grown ds (ms ∷ gs) h =
    let (mid, e₁, e₂) = >>=-eq-ok (collect_group ds ms) _ h in
    let (g, r) = collect_group-Grown ds ms e₁ in
    let (g', rs) = collect_groups-Grown mid gs e₂ in
    (
      Grown-trans g g',
      (
        Grown-keeps (λ xs. All (MethodResolves xs) ms)
            (λ new. All-mono _ _ (MethodResolves-append mid new) ms) g' r,
        rs,
      ),
    )

collect_half-Grown :
    (service : Option Service) (ds : Declarations) {out : Declarations}
    → collect_half service ds ≡ ok out
    → Grown ds out × ServiceResolves out service
unfolding collect_service
collect_half-Grown none ds h = (unchanged h, tt)
collect_half-Grown (some s) ds h = collect_groups-Grown ds s.methods h

collect-Grown :
    (e : Endpoint) {out : Declarations}
    → collect e ≡ ok out
    → Grown [] out × ServiceResolves out e.service × ServiceResolves out e.client
unfolding collect
collect-Grown e h =
    let (mid, e₁, e₂) = >>=-eq-ok (collect_half e.service []) _ h in
    let (g, r) = collect_half-Grown e.service [] e₁ in
    let (g', r') = collect_half-Grown e.client mid e₂ in
    (
      Grown-trans g g',
      Grown-keeps (λ xs. ServiceResolves xs e.service)
          (λ new. ServiceResolves-append mid new e.service) g' r,
      r',
    )

-- When the collection of an endpoint succeeds, every reference to a declared type that the renderers
-- meet, in the bodies of the declarations and in the arguments and results of both services, names one
-- of the declarations, which the comparison takes to be the same type.
pub collect-Resolves :
    (e : Endpoint) (ds : Declarations)
    → collect e ≡ ok ds
    → All (λ d. BodyResolves ds (type_of d)) ds
      × ServiceResolves ds e.service
      × ServiceResolves ds e.client
collect-Resolves e ds h =
    let (g, here, there) = collect-Grown e h in
    (subst (All (λ d. BodyResolves ds (type_of d))) g.split g.closed, here, there)

-- A container that passed the checks, and is what a lookup of its name finds.
abbrev pub IsFound : Declarations → NamedType → Type 0
IsFound ds d = (is_declared d ≡ true) × (validate d ≡ true) × (get ds (name_of d) ≡ some d)

-- Each new declaration is the one that is found under its name.
Accepted-found : (ds new : Declarations) → Accepted ds new → All (IsFound (ds ++ new)) new
unfolding Accepted
Accepted-found ds [] h = tt
Accepted-found ds (d ∷ new) (on, fine, free, room, h) =
    let assoc : (ds ++ d ∷ []) ++ new ≡ ds ++ d ∷ new = append_assoc ds (d ∷ []) new in
    let here = get-append (ds ++ d ∷ []) new (name_of d) d (get-pushed ds d free) in
    (
      (on, fine, subst (λ xs. get xs (name_of d) ≡ some d) assoc here),
      subst (λ xs. All (IsFound xs) new) assoc (Accepted-found (ds ++ d ∷ []) new h),
    )

Accepted-room :
    (ds new : Declarations)
    → Accepted ds new
    → length ds ≤ max_declarations
    → length (ds ++ new) ≤ max_declarations
unfolding Accepted
Accepted-room ds [] h k = subst (λ xs. length xs ≤ max_declarations) (sym (append-nil ds)) k
Accepted-room ds (d ∷ new) (on, fine, free, room, h) k =
    subst (λ xs. length xs ≤ max_declarations) (append_assoc ds (d ∷ []) new)
      (Accepted-room (ds ++ d ∷ []) new h (omega (arith, length-append ds (d ∷ []))))

-- When the collection of an endpoint succeeds, it has at most `MAX_DECLARATIONS` declarations, each a
-- container that passed the checks and that a lookup of its name finds, and no two of them, at whatever
-- places in the list, have the same name.
pub collect-found :
    (e : Endpoint) (ds : Declarations)
    → collect e ≡ ok ds
    → (length ds ≤ max_declarations) × All (IsFound ds) ds × HasDistinctNames ds
collect-found e ds h =
    let g = (collect-Grown e h).0 in
    (
      subst (λ xs. length xs ≤ max_declarations) g.split
          (Accepted-room [] g.new g.accepted (omega arith)),
      subst (λ xs. All (IsFound xs) xs) g.split (Accepted-found [] g.new g.accepted),
      subst HasDistinctNames g.split (Accepted-HasDistinctNames [] g.new g.accepted tt),
    )
