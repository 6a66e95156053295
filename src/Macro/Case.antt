-- ===== src/Macro/Case.antt =====
-- Upper and lower case of a `char`, given by its code point; a name is the list of its code points.
use web_rpc.Prelude.{ℕ, ◌+◌, ◌-◌, Bool, ◌&&◌, [], ◌∷◌, ◌++◌, leb, ltb, if◌then◌else◌, Text}

-- The Unicode tables of the standard library, outside ASCII.
pub record Unicode : Type 0 where
  pub upper : ℕ → Text
  pub lower : ℕ → Text
  pub uppercase : ℕ → Bool

abbrev pub ascii_upper : ℕ → Bool
ascii_upper c = leb b'A' c && leb c b'Z'

abbrev pub ascii_lower : ℕ → Bool
ascii_lower c = leb b'a' c && leb c b'z'

module _ (u : Unicode) where
  -- `char::is_uppercase`, `char::to_uppercase` and `char::to_lowercase`.
  unfoldable pub is_uppercase : ℕ → Bool
  is_uppercase c = if ltb c 128 then ascii_upper c else u.uppercase c

  unfoldable pub to_uppercase : ℕ → Text
  to_uppercase c = if ltb c 128 then (if ascii_lower c then c - 32 else c) ∷ [] else u.upper c

  unfoldable pub to_lowercase : ℕ → Text
  to_lowercase c = if ltb c 128 then (if ascii_upper c then c + 32 else c) ∷ [] else u.lower c

  -- `str::to_uppercase`.
  unfoldable pub all_uppercase : Text → Text
  unfolding to_uppercase
  all_uppercase [] = []
  all_uppercase (c ∷ cs) = to_uppercase c ++ all_uppercase cs
