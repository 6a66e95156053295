-- ===== src/Macro/Description.antt =====
-- web-rpc-macro/src/lib.rs, `description_path`: from a generated service or client to the description.
use web_rpc.Prelude.{
  ℕ, ◌≡◌, ◌≢◌, refl, ap, ◌∙◌, inl, inr, false, Option, none, some, [], ◌∷◌, ◌++◌, length,
  length-append, Bool-cases, Option-cases, Text, text, codes, arith,
}
use web_rpc.Js.Names.{str_eq, str_eq_iff}
use web_rpc.Js.Equal.{str_eq_self}
use web_rpc.Macro.Case.{Unicode}
use web_rpc.Macro.Convert.{strip_suffix, description_ident, description_name}

module _ (u : Unicode) where
  -- A suffix that is there is taken off.
  strip_suffix-append : (name suffix : Text) → strip_suffix u suffix (name ++ suffix) ≡ some name
  unfolding strip_suffix
  strip_suffix-append [] [] = unfold str_eq in refl
  strip_suffix-append [] (s ∷ suffix) = rw (str_eq_self (s ∷ suffix))
  strip_suffix-append (c ∷ cs) suffix = rw (longer, strip_suffix-append cs suffix)
    where
      longer : str_eq (c ∷ (cs ++ suffix)) suffix ≡ false
      longer = elim (Bool-cases (str_eq (c ∷ (cs ++ suffix)) suffix)) [
        | inl same ↦ absurd (
            let e = ap length ((str_eq_iff _ _).0 same) in
            omega (arith, e, length-append cs suffix))
        | inr other ↦ other
      ]

  -- What is taken off is the suffix.
  strip_suffix-eq-some :
      (suffix name rest : Text) → strip_suffix u suffix name ≡ some rest → name ≡ rest ++ suffix
  unfolding strip_suffix
  strip_suffix-eq-some suffix [] rest h = elim (Bool-cases (str_eq [] suffix)) [
    | inl same ↦
        let taken : ◌≡◌ {A = Option Text} (some []) (some rest) = rw same at h in
        let whole : [] ≡ rest = cc in (str_eq_iff [] suffix).0 same ∙ ap (λ xs. xs ++ suffix) whole
    | inr other ↦ absurd (let taken : ◌≡◌ {A = Option Text} none (some rest) = rw other at h in cc)
  ]
  strip_suffix-eq-some suffix (c ∷ cs) rest h = elim (Bool-cases (str_eq (c ∷ cs) suffix)) [
    | inl same ↦
        let taken : ◌≡◌ {A = Option Text} (some []) (some rest) = rw same at h in
        let whole : [] ≡ rest = cc in
        (str_eq_iff (c ∷ cs) suffix).0 same ∙ ap (λ xs. xs ++ suffix) whole
    | inr other ↦ elim (Option-cases (strip_suffix u suffix cs)) [
      | inl e ↦
          absurd (let taken : ◌≡◌ {A = Option Text} none (some rest) = rw (other, e) at h in cc)
      | inr (t, e) ↦
          let taken : ◌≡◌ {A = Option Text} (some (c ∷ t)) (some rest) = rw (other, e) at h in
          let whole : c ∷ t ≡ rest = cc in
          ap (◌∷◌ c) (strip_suffix-eq-some suffix cs t e) ∙ ap (λ xs. xs ++ suffix) whole
    ]
  ]

  last_or : ℕ → Text → ℕ
  last_or c [] = c
  last_or c (d ∷ ds) = last_or d ds

  last_or-append : (c : ℕ) (xs : Text) (y : ℕ) (ys : Text) → last_or c (xs ++ y ∷ ys) ≡ last_or y ys
  unfolding last_or
  last_or-append c [] y ys = refl
  last_or-append c (x ∷ xs) y ys = last_or-append x xs y ys

  -- No name has both suffixes.
  client-strip : (name : Text) → strip_suffix u (text "Service") (name ++ text "Client") ≡ none
  unfolding last_or
  client-strip name =
      elim (Option-cases (strip_suffix u (text "Service") (name ++ text "Client"))) [
        | inl e ↦ e
        | inr (rest, e) ↦ absurd (
            let same : name ++ codes "Client" ≡ rest ++ codes "Service" =
              unfold text in strip_suffix-eq-some (text "Service") (name ++ text "Client") rest e in
            let ends : last_or 0 (name ++ codes "Client") ≡ last_or 0 (rest ++ codes "Service") =
              ap (last_or 0) same in
            let t : last_or 0 (name ++ codes "Client") ≡ 116 =
              last_or-append 0 name b'C' (codes "lient") in
            let e : last_or 0 (rest ++ codes "Service") ≡ 101 =
              last_or-append 0 rest b'S' (codes "ervice") in
            omega (arith, t, e, ends))
      ]

  -- From the service, and from the client, that the macro generates for a trait, the endpoint macro finds
  -- the name of the constant that holds the description of that trait.
  pub description_name-generated :
      (trait_name : Text)
      → trait_name ≢ []
      → (description_name u (trait_name ++ text "Service") ≡ some (description_ident u trait_name))
        × (description_name u (trait_name ++ text "Client") ≡ some (description_ident u trait_name))
  unfolding description_name
  description_name-generated [] h = absurd (h refl)
  description_name-generated (c ∷ cs) h = (
    rw (strip_suffix-append (c ∷ cs) (text "Service")),
    rw (client-strip (c ∷ cs), strip_suffix-append (c ∷ cs) (text "Client")),
  )
