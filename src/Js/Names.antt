-- ===== src/Js/Names.antt =====
-- web-rpc/src/js/writer.rs: the tests on strings, byte by byte.
use web_rpc.Prelude.{
  ℕ, ◌≡◌, ◌↔◌, refl, ap, Bool, true, false, ◌&&◌, ◌||◌, List, [], ◌∷◌, leb, ◌==◌, if◌then◌else◌,
  length, Text, text, String, arith,
}

-- The loop behind the test of the lengths.
unfoldable pub same_bytes : Text → Text → Bool
same_bytes [] [] = true
same_bytes (a ∷ xs) (b ∷ ys) = if a == b then same_bytes xs ys else false
same_bytes _ _ = false

unfoldable pub str_eq : Text → Text → Bool
unfolding same_bytes
str_eq left right = if length left == length right then same_bytes left right else false

is_alpha : ℕ → Bool
is_alpha b = leb b'A' b && leb b b'Z' || leb b'a' b && leb b b'z' || b == b'_' || b == b'$'

is_digit : ℕ → Bool
is_digit b = leb b'0' b && leb b b'9'

all_ident : Text → Bool
unfolding is_alpha is_digit
all_ident [] = true
all_ident (b ∷ bs) = if is_alpha b || is_digit b then all_ident bs else false

unfoldable pub is_ident : Text → Bool
unfolding is_alpha is_digit all_ident
is_ident [] = false
is_ident (b ∷ bs) = if is_alpha b then all_ident bs else false

abbrev pub reserved : List String
reserved =
    "arguments" ∷ "await" ∷ "break" ∷ "case" ∷ "catch" ∷ "class" ∷ "const" ∷ "continue" ∷ "debugger"
    ∷ "default" ∷ "delete" ∷ "do" ∷ "else" ∷ "enum" ∷ "eval" ∷ "export" ∷ "extends" ∷ "false"
    ∷ "finally" ∷ "for" ∷ "function" ∷ "if" ∷ "implements" ∷ "import" ∷ "in" ∷ "instanceof"
    ∷ "interface" ∷ "let" ∷ "new" ∷ "null" ∷ "package" ∷ "private" ∷ "protected" ∷ "public"
    ∷ "return" ∷ "static" ∷ "super" ∷ "switch" ∷ "this" ∷ "throw" ∷ "true" ∷ "try" ∷ "typeof"
    ∷ "var" ∷ "void" ∷ "while" ∷ "with" ∷ "yield" ∷ []

unfoldable pub any_eq : Text → List String → Bool
any_eq name [] = false
any_eq name (w ∷ ws) = if str_eq (text w) name then true else any_eq name ws

unfoldable pub is_reserved : Text → Bool
unfolding any_eq
is_reserved name = any_eq name reserved

same_bytes_iff : (a b : Text) → (same_bytes a b ≡ true) ↔ (a ≡ b)
unfolding same_bytes
same_bytes_iff [] [] = (λ _. refl, λ _. refl)
same_bytes_iff [] (b ∷ bs) = (λ h. cc, λ h. cc)
same_bytes_iff (a ∷ xs) [] = (λ h. cc, λ h. cc)
same_bytes_iff (a ∷ xs) (b ∷ ys) =
    let ih = same_bytes_iff xs ys in ((λ h. ground (arith, ih.0)), λ h. ground (arith, ih.1))

-- The comparison decides equality of the two strings.
pub str_eq_iff : (a b : Text) → (str_eq a b ≡ true) ↔ (a ≡ b)
unfolding str_eq
str_eq_iff a b = (
  (λ h. (same_bytes_iff a b).0 (ground arith)),
  λ h. ground (arith, ap length h, (same_bytes_iff a b).1 h),
)
