-- ===== src/Js/Describe.antt =====
-- web-rpc/src/describe.rs: the description of a service trait; and web-rpc/src/js/mod.rs: the endpoint
-- that is rendered, and the numbering of methods on the wire.
use web_rpc.Prelude.{
  ℕ, zero, suc, ◌+◌, ◌-◌, ◌<◌, ◌≤◌, ◌≡◌, refl, ap, ◌∙◌, sym, inl, inr, Bool, Option, none, some,
  List, [], ◌∷◌, ◌++◌, Outcome, ok, panic, ltb, ltb→lt, Bool-cases, if◌then◌else◌, length,
  length-append, get_elem?, Text, arith,
}
use mathlib.Core.List.{flatten}
use web_rpc.Js.Schema.{NamedType}

-- `js` holds the DOM class name, and whether the value goes on the transfer list.
pub data Desc : Type 0 where
  js : Text → Bool → Desc
  postcard inline : NamedType → Desc
  option : Desc → Desc
  result : Desc → Desc → Desc

pub data Return : Type 0 where
  notify : Return
  value stream : Desc → Return

pub record Arg : Type 0 where
  pub name : Text
  pub desc : Desc

pub record Method : Type 0 where
  pub name : Text
  pub args : List Arg
  pub ret : Return

-- One list for each method of the trait, empty where the method is compiled out.
pub record Service : Type 0 where
  pub name : Text
  pub methods : List (List Method)

pub record Endpoint : Type 0 where
  pub class : Text
  pub service : Option Service
  pub client : Option Service

count_groups : List (List Method) → ℕ
count_groups [] = 0
count_groups (group ∷ groups) = length group + count_groups groups

unfoldable pub method_count : Service → ℕ
unfolding count_groups
method_count s = count_groups s.methods

abbrev pub index_of : Option Method → Outcome Method
index_of none = panic
index_of (some m) = ok m

-- `seen` counts the methods of the groups before.
method_in : List (List Method) → ℕ → ℕ → Outcome Method
method_in [] seen index = panic
method_in (group ∷ groups) seen index =
    if ltb index (seen + length group)
    then index_of (get_elem? group (index - seen))
    else method_in groups (seen + length group) index

unfoldable pub method_at : Service → ℕ → Outcome Method
unfolding method_in
method_at s index = method_in s.methods 0 index

count_groups-flatten : (gs : List (List Method)) → count_groups gs ≡ length (flatten gs)
unfolding count_groups flatten
count_groups-flatten [] = refl
count_groups-flatten (g ∷ gs) = omega (arith, count_groups-flatten gs, length-append g (flatten gs))

get_elem?-append_left :
    (xs ys : List Method) (i : ℕ) → i < length xs → get_elem? (xs ++ ys) i ≡ get_elem? xs i
get_elem?-append_left [] ys i h = elim h [ ]
get_elem?-append_left (x ∷ xs) ys zero h = refl
get_elem?-append_left (x ∷ xs) ys (suc i) h = get_elem?-append_left xs ys i (omega arith)

get_elem?-append_right :
    (xs ys : List Method) (i : ℕ) → get_elem? (xs ++ ys) (length xs + i) ≡ get_elem? ys i
get_elem?-append_right [] ys i = ap (get_elem? ys) (omega arith)
get_elem?-append_right (x ∷ xs) ys i =
    let e : suc (length xs) + i ≡ suc (length xs + i) = omega arith in
    ap (get_elem? (x ∷ (xs ++ ys))) e ∙ get_elem?-append_right xs ys i

method_in-flatten :
    (gs : List (List Method)) (seen i : ℕ)
    → method_in gs seen (seen + i) ≡ index_of (get_elem? (flatten gs) i)
unfolding method_in flatten
method_in-flatten [] seen i = refl
method_in-flatten (g ∷ gs) seen i = elim (Bool-cases (ltb (seen + i) (seen + length g))) [
  | inl lt ↦
      let here : i < length g = omega (arith, ltb→lt (seen + i) (seen + length g) lt) in
      let at : seen + i - seen ≡ i = omega arith in
      rw lt (rw at (ap index_of (sym (get_elem?-append_left g (flatten gs) i here))))
  | inr ge ↦
      let past : length g ≤ i = ground arith in
      let on : seen + i ≡ seen + length g + (i - length g) = omega arith in
      let split : length g + (i - length g) ≡ i = omega arith in
      rw ge (
        ap (method_in gs (seen + length g)) on
        ∙ method_in-flatten gs (seen + length g) (i - length g)
        ∙ ap index_of (
            sym (get_elem?-append_right g (flatten gs) (i - length g))
            ∙ ap (get_elem? (g ++ flatten gs)) split))
]

-- The methods that survive, in the order of the trait, are counted by `method_count`; `method_at` gives
-- the one at each index below the count, and panics at any other.
pub method_at-flatten :
    (s : Service) (i : ℕ)
    → (method_count s ≡ length (flatten s.methods))
      × (method_at s i ≡ index_of (get_elem? (flatten s.methods) i))
unfolding method_count method_at
method_at-flatten s i = (
  count_groups-flatten s.methods,
  ap (method_in s.methods 0) (omega arith) ∙ method_in-flatten s.methods 0 i,
)
