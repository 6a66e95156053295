-- ===== src/Js/Output.antt =====
-- web-rpc/src/js/writer.rs: the const output buffer. A write out of bounds is a const-eval error.
use web_rpc.Prelude.{
  ℕ, zero, suc, ◌+◌, ◌/◌, ◌%◌, ◌||◌, [], ◌∷◌, Outcome, ok, panic, ◌>>=◌, ltb, leb, ◌==◌,
  if◌then◌else◌, length, set, replicate, Text, text,
}
use web_rpc.Js.Names.{is_reserved}

-- `Output<CAPACITY>`.
pub record Output : Type 0 where
  pub capacity : ℕ
  pub bytes : Text
  pub size : ℕ

unfoldable pub new : ℕ → Output
new capacity = record { capacity = capacity; bytes = replicate capacity 0; size = 0 }

-- A rendering pass over the buffer.
abbrev pub Pass : Type 0
Pass = Output → Outcome Output

infixl 1 ◌>>◌
unfoldable pub ◌>>◌ : Pass → Pass → Pass
(r >> s) o = r o >>= s

-- A pass that does nothing, and one that ends in a panic.
unfoldable pub idle : Pass
idle o = ok o

unfoldable pub fail : Pass
fail o = panic

unfoldable pub put_byte : ℕ → Pass
put_byte byte o =
    if ltb 0 o.capacity
    then if ltb o.size (length o.bytes)
      then ok (record o { bytes = set o.bytes o.size byte; size = o.size + 1 })
      else panic
    else ok (record o { size = o.size + 1 })

unfoldable pub put : Text → Pass
put [] = idle
put (b ∷ bs) = put_byte b >> put bs

-- One round for each digit.
unfoldable pub put_digits : ℕ → ℕ → Pass
put_digits zero value = fail
put_digits (suc fuel) value =
    let higher = put_digits fuel (value / 10) in
    (if leb 10 value then higher else idle) >> put_byte (b'0' + value % 10)

unfoldable pub put_usize : ℕ → Pass
unfolding put_digits
put_usize value = put_digits (suc value) value

unfoldable pub put_escaped : Text → Pass
put_escaped [] = idle
put_escaped (b ∷ bs) = do
  if b == b'"' || b == 92 then put_byte 92 else idle
  put_byte b
  put_escaped bs

unfoldable pub put_quoted : Text → Pass
unfolding put_escaped
put_quoted t = do put_byte b'"'; put_escaped t; put_byte b'"'

unfoldable pub put_ident : Text → Pass
put_ident name = do put name; if is_reserved name then put (text "_") else idle

unfoldable pub put_quoted_ident : Text → Pass
put_quoted_ident name = do put_byte b'"'; put_ident name; put_byte b'"'

unfoldable pub indent : ℕ → Pass
indent zero = idle
indent (suc count) = do put (text "  "); indent count
