-- ===== src/Js/Distinct.antt =====
-- The names of the declarations that web-rpc/src/js/decls.rs accepts.
use web_rpc.Prelude.{
  ◌≡◌, ◌≢◌, sym, subst, none, [], ◌∷◌, ◌++◌, append_assoc, append-nil, All, All-append, arith,
}
use web_rpc.Js.Schema.{NamedType, name_of}
use web_rpc.Js.Names.{str_eq_iff}
use web_rpc.Js.Decls.{Declarations, get}
use web_rpc.Js.Closure.{Accepted}

-- No two declarations, at whatever places, have the same name.
abbrev pub HasDistinctNames : Declarations → Type 0
HasDistinctNames [] = Unit
HasDistinctNames (d ∷ ds) = All (λ e. name_of d ≢ name_of e) ds × HasDistinctNames ds

get-none :
    (ds : Declarations) (d : NamedType)
    → get ds (name_of d) ≡ none
    → All (λ e. name_of e ≢ name_of d) ds
unfolding get
get-none [] d h = tt
get-none (e ∷ ds) d h = (
  (λ same. let hit = (str_eq_iff (name_of e) (name_of d)).1 same in ground arith),
  get-none ds d (ground arith),
)

HasDistinctNames-append :
    (ds : Declarations) (d : NamedType)
    → HasDistinctNames ds
    → All (λ e. name_of e ≢ name_of d) ds
    → HasDistinctNames (ds ++ d ∷ [])
HasDistinctNames-append [] d h k = (tt, tt)
HasDistinctNames-append (e ∷ ds) d (h, hs) (k, ks) = (
  All-append (λ x. name_of e ≢ name_of x) ds (d ∷ []) h (k, tt),
  HasDistinctNames-append ds d hs ks,
)

pub Accepted-HasDistinctNames :
    (ds new : Declarations) → Accepted ds new → HasDistinctNames ds → HasDistinctNames (ds ++ new)
unfolding Accepted
Accepted-HasDistinctNames ds [] h k = subst HasDistinctNames (sym (append-nil ds)) k
Accepted-HasDistinctNames ds (d ∷ new) (_, _, free, _, h) k =
    subst HasDistinctNames (append_assoc ds (d ∷ []) new) (
      Accepted-HasDistinctNames (ds ++ d ∷ []) new h
        (HasDistinctNames-append ds d k (get-none ds d free)))
