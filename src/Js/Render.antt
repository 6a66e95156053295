-- ===== src/Js/Render.antt =====
-- The two passes of web-rpc/src/js/writer.rs: what a pass measures, the second pass fills.
use web_rpc.Prelude.{
  ℕ, zero, suc, ◌+◌, ◌<◌, ◌≡◌, refl, sym, ap, ◌∙◌, Bool, true, false, ◌||◌, [], ◌∷◌, ◌++◌,
  append_assoc, append-nil, fun_ext, Outcome, ok, panic, ◌>>=◌, >>=-assoc, ◌⊎◌, inl, inr, ◌==◌,
  if◌then◌else◌, length, length-append, set, replicate, Text, text, arith,
}
use web_rpc.Js.Names.{is_reserved}
use web_rpc.Js.Output.{
  Output, new, Pass, ◌>>◌, idle, fail, put_byte, put, put_escaped, put_quoted, put_ident,
  put_quoted_ident, indent,
}

pub put-append : (xs ys : Text) (o : Output) → put (xs ++ ys) o ≡ (put xs >> put ys) o
unfolding put ◌>>◌ idle
put-append [] ys o = refl
put-append (x ∷ xs) ys o =
    ap (λ (k : Pass). put_byte x o >>= k) (fun_ext (λ p. put-append xs ys p))
    ∙ >>=-assoc (put_byte x o) (put xs) (put ys)

-- A pass is uniform when it does the same whatever the buffer: it appends one text, or panics, if it may.
pub data Uniform (may_panic : Bool) (r : Pass) : Type 0 where
  writes : (bs : Text) → ((o : Output) → r o ≡ put bs o) → Uniform may_panic r
  panics : may_panic ≡ true → ((o : Output) → r o ≡ panic) → Uniform may_panic r

abbrev pub Renders : Pass → Type 0
Renders r = Uniform true r

-- A uniform pass that does not panic.
abbrev pub Writes : Pass → Type 0
Writes r = Uniform false r

pub Uniform-put : {p : Bool} (bs : Text) → Uniform p (put bs)
Uniform-put bs = writes bs (λ o. refl)

pub Uniform-idle : {p : Bool} → Uniform p idle
unfolding put
Uniform-idle = writes [] (λ o. refl)

pub Renders-fail : Renders fail
unfolding fail
Renders-fail = panics refl (λ o. refl)

pub put_byte-put : (b : ℕ) (o : Output) → put_byte b o ≡ put (b ∷ []) o
unfolding put ◌>>◌ idle
put_byte-put b o = sym (go (put_byte b o))
  where
    go : (m : Outcome Output) → (m >>= λ p. ok p) ≡ m
    go (ok p) = refl
    go panic = refl

pub Uniform-put_byte : {p : Bool} (b : ℕ) → Uniform p (put_byte b)
Uniform-put_byte b = writes (b ∷ []) (put_byte-put b)

pub Uniform-seq : {p : Bool} {r s : Pass} → Uniform p r → Uniform p s → Uniform p (r >> s)
unfolding ◌>>◌
Uniform-seq {r} {s} (writes bs f) (writes cs g) =
    writes (bs ++ cs) (λ o. rw (f o) (rw (fun_ext g) (sym (put-append bs cs o))))
Uniform-seq {r} {s} (writes bs f) (panics may g) = panics may (λ o. rw (f o) (stop (put bs o)))
  where
    stop : (m : Outcome Output) → (m >>= s) ≡ panic
    stop (ok p) = g p
    stop panic = refl
Uniform-seq (panics may f) _ = panics may (λ o. rw (f o))

pub Uniform-if :
    {p : Bool} (b : Bool) {r s : Pass} → Uniform p r → Uniform p s → Uniform p (if b then r else s)
Uniform-if true x y = x
Uniform-if false x y = y

Uniform-put_escaped : {p : Bool} (t : Text) → Uniform p (put_escaped t)
unfolding put_escaped
Uniform-put_escaped [] = Uniform-idle
Uniform-put_escaped (b ∷ bs) =
    Uniform-seq (Uniform-if (b == b'"' || b == 92) (Uniform-put_byte 92) Uniform-idle)
      (Uniform-seq (Uniform-put_byte b) (Uniform-put_escaped bs))

pub Uniform-put_quoted : {p : Bool} (t : Text) → Uniform p (put_quoted t)
unfolding put_quoted
Uniform-put_quoted t =
    Uniform-seq (Uniform-put_byte _) (Uniform-seq (Uniform-put_escaped t) (Uniform-put_byte _))

pub Uniform-put_ident : {p : Bool} (t : Text) → Uniform p (put_ident t)
unfolding put_ident
Uniform-put_ident t =
    Uniform-seq (Uniform-put t) (Uniform-if (is_reserved t) (Uniform-put (text "_")) Uniform-idle)

pub Uniform-put_quoted_ident : {p : Bool} (t : Text) → Uniform p (put_quoted_ident t)
unfolding put_quoted_ident
Uniform-put_quoted_ident t =
    Uniform-seq (Uniform-put_byte _) (Uniform-seq (Uniform-put_ident t) (Uniform-put_byte _))

pub Uniform-indent : {p : Bool} (n : ℕ) → Uniform p (indent n)
unfolding indent
Uniform-indent zero = Uniform-idle
Uniform-indent (suc n) = Uniform-seq (Uniform-put _) (Uniform-indent n)

-- The rules by which `search` proves a renderer uniform.
pub ruleset renders = (
  Uniform-put, Uniform-idle, Renders-fail, Uniform-put_byte, Uniform-seq, Uniform-if,
  Uniform-put_quoted, Uniform-put_ident, Uniform-put_quoted_ident, Uniform-indent,
)

-- The measuring pass only counts.
measure-put :
    (bs : Text) (o : Output)
    → o.capacity ≡ 0
    → put bs o ≡ ok (record o { size = o.size + length bs })
unfolding put ◌>>◌ idle put_byte
measure-put [] o e = ap (λ (n : ℕ). ok (record o { size = n })) (omega arith)
measure-put (b ∷ bs) o e =
    rw (e, put_byte)
      (measure-put bs (record { capacity = 0; bytes = o.bytes; size = o.size + 1 }) refl
        ∙ ap (λ (n : ℕ). ok (record { capacity = 0; bytes = o.bytes; size = n })) (omega arith))

-- A buffer of which a first part is written.
abbrev partly : ℕ → Text → ℕ → Output
partly capacity done left = record {
  capacity = capacity;
  bytes = done ++ replicate left 0;
  size = length done;
}

set-next : (xs ys : Text) (b c : ℕ) → set (xs ++ b ∷ ys) (length xs) c ≡ (xs ++ c ∷ []) ++ ys
set-next [] ys b c = refl
set-next (x ∷ xs) ys b c = ap (◌∷◌ x) (set-next xs ys b c)

put_byte-partly :
    (capacity : ℕ) (done : Text) (left b : ℕ)
    → 0 < capacity
    → put_byte b (partly capacity done (suc left)) ≡ ok (partly capacity (done ++ b ∷ []) left)
unfolding put_byte
put_byte-partly capacity done left b h = ground (
  arith,
  set-next done (replicate left 0) 0 b,
  length-append done (0 ∷ replicate left 0),
  length-append done (b ∷ []),
)

-- The second pass fills the room that is left, to the last byte.
fill-put :
    (capacity : ℕ) (done bs : Text)
    → 0 < capacity
    → put bs (partly capacity done (length bs)) ≡ ok (partly capacity (done ++ bs) 0)
unfolding put ◌>>◌ idle
fill-put capacity done [] h = simp append-nil
fill-put capacity done (b ∷ bs) h =
    rw (put_byte-partly capacity done (length bs) b h)
      (fill-put capacity (done ++ b ∷ []) bs h ∙ simp append_assoc)

fill_new :
    (bs : Text)
    → put bs (new (length bs)) ≡ ok (record { capacity = length bs; bytes = bs; size = length bs })
unfolding new
fill_new [] = unfold put idle in refl
fill_new (b ∷ bs) = fill-put (suc (length bs)) [] (b ∷ bs) (omega arith) ∙ simp append-nil

-- The first of two passes counts, and the second, in a buffer of that size, succeeds with every byte of the
-- buffer written.
abbrev pub Fills : Pass → Type 0
Fills r =
    (m : Output) × (bs : Text) × (r (new 0) ≡ ok m)
    × (m.size ≡ length bs)
    × (r (new m.size) ≡ ok (record { capacity = m.size; bytes = bs; size = m.size }))

writes-Fills : (r : Pass) (bs : Text) → ((o : Output) → r o ≡ put bs o) → Fills r
writes-Fills r bs f = (
  record (new 0) { size = length bs },
  bs,
  f (new 0) ∙ measured,
  refl,
  f (new (length bs)) ∙ fill_new bs,
)
  where
    measured : put bs (new 0) ≡ ok (record (new 0) { size = length bs })
    measured =
        measure-put bs (new 0) (unfold new in refl)
        ∙ ap (λ (n : ℕ). ok (record (new 0) { size = n })) (unfold new in omega arith)

pub Writes-Fills : (r : Pass) → Writes r → Fills r
Writes-Fills r (writes bs f) = writes-Fills r bs f
Writes-Fills r (panics may f) = cc

-- The outcome of the two passes of a renderer: the measuring pass panics, and so does every other; or
-- it measures a size for which the second pass writes every byte, and none out of bounds.
pub Renders-two_passes : (r : Pass) → Renders r → ((n : ℕ) → r (new n) ≡ panic) ⊎ Fills r
Renders-two_passes r (panics may p) = inl (λ n. p (new n))
Renders-two_passes r (writes bs f) = inr (writes-Fills r bs f)

-- Nothing is left of a pass that comes to a panic.
pub fail-seq : (r s : Pass) (o : Output) → (r >> (fail >> s)) o ≡ panic
unfolding ◌>>◌ fail
fail-seq r s o = go (r o)
  where
    go : (m : Outcome Output) → (m >>= (fail >> s)) ≡ panic
    go (ok p) = refl
    go panic = refl
