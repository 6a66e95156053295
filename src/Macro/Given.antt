-- ===== src/Macro/Given.antt =====
-- Which arguments `js::endpoint!` accepts.
use web_rpc.Prelude.{
  ◌≡◌, ◌↔◌, refl, sym, ap, ◌∙◌, subst, inl, inr, false, none, some, List, [], ◌∷◌, map, Bool-cases,
  Text, text,
}
use web_rpc.Js.Names.{same_bytes, str_eq, str_eq_iff}
use web_rpc.Js.Equal.{str_eq_self}
use web_rpc.Macro.Syntax.{RustPath}
use web_rpc.Macro.Endpoint.{
  Checked, accepted, rejected, ◌>>=◌, unexpected_key, EndpointArg, service, client, EndpointArgs,
  parse_arg, parse_entries, fill_all, at_least_one, parse_args,
}

abbrev service_entry : RustPath → Text × RustPath
service_entry path = (text "service", path)

abbrev client_entry : RustPath → Text × RustPath
client_entry path = (text "client", path)

-- The lists of entries that give each of the two at most once, and one of them.
pub data Given : List (Text × RustPath) → EndpointArgs → Type 0 where
  only_service :
      (s : RustPath) → Given (service_entry s ∷ []) (record { service = some s; client = none })
  only_client :
      (c : RustPath) → Given (client_entry c ∷ []) (record { service = none; client = some c })
  service_first :
      (s c : RustPath)
      → Given (service_entry s ∷ client_entry c ∷ []) (record { service = some s; client = some c })
  client_first :
      (s c : RustPath)
      → Given (client_entry c ∷ service_entry s ∷ []) (record { service = some s; client = some c })

abbrev entry : EndpointArg → Text × RustPath
entry (service path) = service_entry path
entry (client path) = client_entry path

>>=-eq-accepted {ℓ κ} :
    {A : Type ℓ} {B : Type κ} (m : Checked A) (f : A → Checked B) {b : B}
    → (m >>= f) ≡ accepted b
    → (a : A) × (m ≡ accepted a) × (f a ≡ accepted b)
>>=-eq-accepted (accepted a) f h = (a, refl, h)
>>=-eq-accepted (rejected e) f h = cc

client_not_service : str_eq (text "client") (text "service") ≡ false
unfolding str_eq same_bytes text
client_not_service = refl

parse_arg-entry : (arg : EndpointArg) → parse_arg (entry arg) ≡ accepted arg
unfolding parse_arg
parse_arg-entry (service path) = rw (str_eq_self (text "service"))
parse_arg-entry (client path) = rw (client_not_service, str_eq_self (text "client"))

parse_arg-eq :
    (e : Text × RustPath) (arg : EndpointArg) → parse_arg e ≡ accepted arg → e ≡ entry arg
unfolding parse_arg
parse_arg-eq (key, path) arg h = elim (Bool-cases (str_eq key (text "service"))) [
  | inl same ↦
      let e : accepted (service path) ≡ accepted arg = rw same at h in
      let k : key ≡ text "service" = (str_eq_iff key (text "service")).0 same in
      let a : service path ≡ arg = cc in ap (λ k'. (k', path)) k ∙ ap entry a
  | inr differ ↦ elim (Bool-cases (str_eq key (text "client"))) [
    | inl same ↦
        let e : accepted (client path) ≡ accepted arg = rw (differ, same) at h in
        let k : key ≡ text "client" = (str_eq_iff key (text "client")).0 same in
        let a : client path ≡ arg = cc in ap (λ k'. (k', path)) k ∙ ap entry a
    | inr unknown ↦ absurd (
        let e : ◌≡◌ {A = Checked EndpointArg} (rejected unexpected_key) (accepted arg) =
          rw (differ, unknown) at h in
        cc)
  ]
]

parse_entries-map : (args : List EndpointArg) → parse_entries (map entry args) ≡ accepted args
unfolding parse_entries
parse_entries-map [] = refl
parse_entries-map (arg ∷ args) = rw (parse_arg-entry arg, parse_entries-map args)

parse_entries-eq :
    (es : List (Text × RustPath)) (args : List EndpointArg)
    → parse_entries es ≡ accepted args
    → es ≡ map entry args
unfolding parse_entries
parse_entries-eq [] args h = let e : [] ≡ args = cc in ap (map entry) e
parse_entries-eq (e ∷ es) args h =
    let (arg, first, h') = >>=-eq-accepted (parse_arg e) _ h in
    let (rest, others, h'') = >>=-eq-accepted (parse_entries es) _ h' in
    let a : ◌∷◌ arg rest ≡ args = cc in
    ap (λ x. x ∷ es) (parse_arg-eq e arg first)
    ∙ ap (◌∷◌ (entry arg)) (parse_entries-eq es rest others)
    ∙ ap (map entry) a

abbrev nothing : EndpointArgs
nothing = record { service = none; client = none }

filled :
    (args : List EndpointArg) (a : EndpointArgs)
    → (fill_all args nothing >>= at_least_one) ≡ accepted a
    → Given (map entry args) a
unfolding fill_all
filled [] a h = absurd (cc)
filled (service s ∷ []) a h =
    let e : ◌≡◌ {A = EndpointArgs} (record { service = some s; client = none }) a = cc in
    subst (Given (service_entry s ∷ [])) e (only_service s)
filled (client c ∷ []) a h =
    let e : ◌≡◌ {A = EndpointArgs} (record { service = none; client = some c }) a = cc in
    subst (Given (client_entry c ∷ [])) e (only_client c)
filled (service s ∷ service t ∷ args) a h = absurd (cc)
filled (client c ∷ client d ∷ args) a h = absurd (cc)
filled (service s ∷ client c ∷ []) a h =
    let e : ◌≡◌ {A = EndpointArgs} (record { service = some s; client = some c }) a = cc in
    subst (Given (service_entry s ∷ client_entry c ∷ [])) e (service_first s c)
filled (client c ∷ service s ∷ []) a h =
    let e : ◌≡◌ {A = EndpointArgs} (record { service = some s; client = some c }) a = cc in
    subst (Given (client_entry c ∷ service_entry s ∷ [])) e (client_first s c)
filled (service s ∷ client c ∷ service t ∷ args) a h = absurd (cc)
filled (service s ∷ client c ∷ client d ∷ args) a h = absurd (cc)
filled (client c ∷ service s ∷ service t ∷ args) a h = absurd (cc)
filled (client c ∷ service s ∷ client d ∷ args) a h = absurd (cc)

Given-parse_args :
    {es : List (Text × RustPath)} {a : EndpointArgs} → Given es a → parse_args es ≡ accepted a
unfolding parse_args fill_all
Given-parse_args (only_service s) = rw (parse_entries-map (service s ∷ []))
Given-parse_args (only_client c) = rw (parse_entries-map (client c ∷ []))
Given-parse_args (service_first s c) = rw (parse_entries-map (service s ∷ client c ∷ []))
Given-parse_args (client_first s c) = rw (parse_entries-map (client c ∷ service s ∷ []))

-- The macro accepts a service, a client, or one of each in either order, and nothing else: a key that
-- is unknown, a key that is given again and an empty list are errors.
pub parse_args_iff :
    (es : List (Text × RustPath)) (a : EndpointArgs) → (parse_args es ≡ accepted a) ↔ Given es a
unfolding parse_args
parse_args_iff es a = (
  (λ h.
      let (args, parsed, h') = >>=-eq-accepted (parse_entries es) _ h in
      subst (λ xs. Given xs a) (sym (parse_entries-eq es args parsed)) (filled args a h')),
  Given-parse_args,
)
