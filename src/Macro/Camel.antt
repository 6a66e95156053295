-- ===== src/Macro/Camel.antt =====
-- Names in CamelCase and the conversions of web-rpc-macro/src/lib.rs.
use web_rpc.Prelude.{
  ℕ, ◌+◌, ◌==◌, ◌≡◌, ◌≤◌, refl, ap, ◌⊎◌, inl, inr, true, false, [], ◌∷◌, All, arith, Text,
}
use web_rpc.Macro.Case.{Unicode, is_uppercase, to_uppercase, to_lowercase}
use web_rpc.Macro.Convert.{camel_loop, snake_to_camel, snake_loop, snake_case_str}

abbrev pub IsUpper : ℕ → Type 0
IsUpper c = (b'A' ≤ c) × (c ≤ b'Z')

abbrev pub IsOther : ℕ → Type 0
IsOther c = ((b'a' ≤ c) × (c ≤ b'z')) ⊎ ((b'0' ≤ c) × (c ≤ b'9'))

-- An ASCII name in CamelCase: a capital first, then letters and digits.
abbrev pub IsCamel : Text → Type 0
IsCamel [] = ⊥
IsCamel (c ∷ cs) = IsUpper c × All (λ d. IsUpper d ⊎ IsOther d) cs

module _ (u : Unicode) where
  upper-is_uppercase : (c : ℕ) → IsUpper c → is_uppercase u c ≡ true
  unfolding is_uppercase
  upper-is_uppercase c h = ground arith

  upper-to_lowercase : (c : ℕ) → IsUpper c → to_lowercase u c ≡ (c + 32) ∷ []
  unfolding to_lowercase
  upper-to_lowercase c h = ground arith

  upper-to_uppercase : (c : ℕ) → IsUpper c → to_uppercase u (c + 32) ≡ c ∷ []
  unfolding to_uppercase
  upper-to_uppercase c h = ground arith

  other-is_uppercase : (c : ℕ) → IsOther c → is_uppercase u c ≡ false
  unfolding is_uppercase
  other-is_uppercase c h = ground arith

  other-to_lowercase : (c : ℕ) → IsOther c → to_lowercase u c ≡ c ∷ []
  unfolding to_lowercase
  other-to_lowercase c h = ground arith

  lowered_ne : (c : ℕ) → IsUpper c → (c + 32 == b'_') ≡ false
  lowered_ne c h = ground arith

  other_ne : (c : ℕ) → IsOther c → (c == b'_') ≡ false
  other_ne c h = ground arith

  camel-snake_tail :
      (cs : Text)
      → All (λ d. IsUpper d ⊎ IsOther d) cs
      → camel_loop u false (snake_loop u true cs) ≡ cs
  unfolding camel_loop snake_loop
  camel-snake_tail [] h = refl
  camel-snake_tail (c ∷ cs) (inl upper, h) =
      rw
        (
          upper-is_uppercase c upper,
          upper-to_lowercase c upper,
          lowered_ne c upper,
          upper-to_uppercase c upper,
        )
        (ap (◌∷◌ c) (camel-snake_tail cs h))
  camel-snake_tail (c ∷ cs) (inr other, h) =
      rw
        (
          other-is_uppercase c other,
          other-to_lowercase c other,
          other_ne c other,
          other-to_lowercase c other,
        )
        (ap (◌∷◌ c) (camel-snake_tail cs h))

  -- The conversion of an ASCII name in CamelCase to snake_case is undone by the conversion to CamelCase.
  pub snake_to_camel-snake_case_str :
      (name : Text) → IsCamel name → snake_to_camel u (snake_case_str u name) ≡ name
  unfolding snake_to_camel snake_case_str camel_loop snake_loop
  snake_to_camel-snake_case_str [] h = elim h [ ]
  snake_to_camel-snake_case_str (c ∷ cs) (upper, h) =
      rw
        (
          upper-is_uppercase c upper,
          upper-to_lowercase c upper,
          lowered_ne c upper,
          upper-to_uppercase c upper,
        )
        (ap (◌∷◌ c) (camel-snake_tail cs h))
