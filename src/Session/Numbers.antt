-- ===== src/Session/Numbers.antt =====
-- The sequence numbers that `State::send` of web-rpc/src/client.rs gives out. Clones of one client
-- share the counter, so the sends of all clones form one list.
use web_rpc.Prelude.{
  ℕ, suc, ◌+◌, ◌%◌, ◌^◌, ◌≤◌, ◌<◌, ◌≡◌, ◌≢◌, refl, sym, List, [], ◌∷◌, arith, All, All-mono, length,
  subst,
}
use web_rpc.Session.Formats.{Formats}
use web_rpc.Session.Message.{Item}
use web_rpc.Session.State.{State}
use web_rpc.Session.Client.{send, wrapping_suc}

-- No element occurs twice.
abbrev pub Distinct : List ℕ → Type 0
Distinct [] = Unit
Distinct (x ∷ xs) = All (λ y. x ≢ y) xs × Distinct xs

-- The number that the `i`th send after a send of number `n` takes.
after_sends : ℕ → ℕ → ℕ
after_sends n i = (n + suc i) % 2 ^ 32

after_sends-ne : (n i : ℕ) → n < 2 ^ 32 → suc i < 2 ^ 32 → n ≢ after_sends n i
unfolding after_sends
after_sends-ne n i h k = omega arith

module _ (f : Formats) where
  abbrev pub Call : Type 0
  Call = f.Request × List (Item f) × List (Item f)

  -- Sends in a row: the numbers they take, and the state they leave.
  unfoldable pub send_all : List Call → State f → List ℕ × State f
  send_all [] s = ([], s)
  send_all ((r, xs, ys) ∷ calls) s =
      let first = send f r xs ys s in
      let rest = send_all calls first.1 in (first.0 ∷ rest.0, rest.1)

  -- A number that one of `k` sends takes, the first of which takes the number after `n`.
  abbrev IsLater : ℕ → ℕ → ℕ → Type 0
  IsLater n k q = (i : ℕ) × (i < k) × (q ≡ after_sends n i)

  IsLater-suc : (n k q : ℕ) → IsLater (wrapping_suc n) k q → IsLater n (suc k) q
  unfolding after_sends
  IsLater-suc n k q (i, lt, e) = (suc i, omega arith, omega arith)

  send_all-IsLater :
      (calls : List Call) (s : State f) (n : ℕ)
      → s.sequence ≡ wrapping_suc n
      → All (IsLater n (length calls)) (send_all calls s).0
  unfolding send_all send
  send_all-IsLater [] s n e = tt
  send_all-IsLater ((r, xs, ys) ∷ calls) s n e = (
    (0, omega arith, unfold after_sends in omega arith),
    All-mono (IsLater (wrapping_suc n) (length calls)) (IsLater n (suc (length calls)))
        (IsLater-suc n (length calls)) (send_all calls (send f r xs ys s).1).0
        (send_all-IsLater calls (send f r xs ys s).1 (wrapping_suc n) (omega arith)),
  )

  -- Up to 2 ^ 32 sends in a row take different sequence numbers, wherever the counter stands: it
  -- wraps around without a repetition.
  pub send_all-Distinct :
      (calls : List Call) (s : State f)
      → s.sequence < 2 ^ 32
      → length calls ≤ 2 ^ 32
      → Distinct (send_all calls s).0
  unfolding send_all send
  send_all-Distinct [] s h k = tt
  send_all-Distinct ((r, xs, ys) ∷ calls) s h k =
      let s' : State f = (send f r xs ys s).1 in
      (
        All-mono (IsLater s.sequence (length calls)) (λ q. s.sequence ≢ q)
            (λ q (i, lt, e).
              subst (λ p. s.sequence ≢ p) (sym e) (after_sends-ne s.sequence i h (omega arith)))
            (send_all calls s').0 (send_all-IsLater calls s' s.sequence refl),
        send_all-Distinct calls s' (omega arith) (omega arith),
      )
