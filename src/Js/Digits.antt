-- ===== src/Js/Digits.antt =====
-- web-rpc/src/js/writer.rs, `Output::put_usize`: what it writes.
use web_rpc.Prelude.{
  ℕ, zero, suc, ◌+◌, ◌*◌, ◌-◌, ◌/◌, ◌%◌, ◌<◌, ◌≤◌, ◌≡◌, refl, sym, ◌∙◌, ◌⊎◌, inl, inr, [], ◌∷◌,
  ◌++◌, All, All-append, fun_ext, leb, Bool-cases, Text, arith,
}
use web_rpc.Js.Output.{Output, Pass, ◌>>◌, idle, put, put_byte, put_digits, put_usize}
use web_rpc.Js.Render.{put-append, put_byte-put}

-- The number that decimal digits stand for, behind digits that stand for `before`.
unfoldable pub read_digits : ℕ → Text → ℕ
read_digits before [] = before
read_digits before (b ∷ bs) = read_digits (before * 10 + (b - b'0')) bs

read_digits-append :
    (before : ℕ) (xs : Text) (d : ℕ)
    → read_digits before (xs ++ d ∷ []) ≡ read_digits before xs * 10 + (d - b'0')
unfolding read_digits
read_digits-append before [] d = refl
read_digits-append before (x ∷ xs) d = read_digits-append (before * 10 + (x - b'0')) xs d

abbrev pub IsDigit : ℕ → Type 0
IsDigit b = (b'0' ≤ b) × (b ≤ b'9')

-- The first digit is no zero, but for the number zero, which has that digit alone.
abbrev pub Leads : Text → ℕ → Type 0
Leads [] value = ⊥
Leads (b ∷ bs) value = ((value ≡ 0) × (bs ≡ [])) ⊎ (b'0' < b)

-- A pass that writes the decimal digits of a number.
abbrev pub WritesDigits : Pass → ℕ → Type 0
WritesDigits r value =
    (bs : Text) × ((o : Output) → r o ≡ put bs o)
    × (read_digits 0 bs ≡ value)
    × All IsDigit bs
    × Leads bs value

remainder-IsDigit : (value : ℕ) → IsDigit (b'0' + value % 10)
remainder-IsDigit value = (omega arith, omega arith)

Leads-append :
    (bs : Text) (d value : ℕ) → 10 ≤ value → Leads bs (value / 10) → Leads (bs ++ d ∷ []) value
Leads-append [] d value big h = absurd h
Leads-append (b ∷ bs) d value big (inl (small, _)) = absurd (omega arith)
Leads-append (b ∷ bs) d value big (inr h) = inr h

next_digit :
    (r : Pass) (value : ℕ)
    → 10 ≤ value
    → WritesDigits r (value / 10)
    → WritesDigits (r >> put_byte (b'0' + value % 10)) value
unfolding ◌>>◌
next_digit r value big (bs, writes, reads, digits, leads) =
    let d = b'0' + value % 10 in
    (
      bs ++ d ∷ [],
      (λ o. rw (writes o) (rw (fun_ext (put_byte-put d)) (sym (put-append bs (d ∷ []) o)))),
      read_digits-append 0 bs d ∙ omega (arith, reads),
      All-append IsDigit bs (d ∷ []) digits (remainder-IsDigit value, tt),
      Leads-append bs d value big leads,
    )

last_digit : (value : ℕ) → value < 10 → WritesDigits (idle >> put_byte (b'0' + value % 10)) value
unfolding ◌>>◌ idle read_digits
last_digit value small =
    let d = b'0' + value % 10 in
    (d ∷ [], put_byte-put d, omega arith, (remainder-IsDigit value, tt), lead value small)
  where
    lead : (n : ℕ) → n < 10 → Leads ((b'0' + n % 10) ∷ []) n
    lead zero h = inl (refl, refl)
    lead (suc n) h = inr (omega arith)

put_digits-WritesDigits :
    (fuel value : ℕ) → value < fuel → WritesDigits (put_digits fuel value) value
unfolding put_digits
put_digits-WritesDigits zero value h = absurd (omega arith)
put_digits-WritesDigits (suc fuel) value h = elim (Bool-cases (leb 10 value)) [
  | inl more ↦
      let big : 10 ≤ value = ground arith in
      rw more (
        next_digit (put_digits fuel (value / 10)) value big
          (put_digits-WritesDigits fuel (value / 10) (omega arith)))
  | inr last ↦ rw last (last_digit value (ground arith))
]

-- Every number is written in decimal: each byte is one of the ten digits, together they stand for the number,
-- the first is no zero unless the number is zero, and the recursion never runs out of the rounds that the
-- definition allows.
pub put_usize-WritesDigits : (value : ℕ) → WritesDigits (put_usize value) value
unfolding put_usize
put_usize-WritesDigits value = put_digits-WritesDigits (suc value) value (omega arith)
