-- ===== src/Session/StreamOrder.antt =====
-- A stream's receiver gets the items that arrive for it, in order, up to the end marker.
use web_rpc.Prelude.{
  ℕ, ◌≡◌, ◌≢◌, refl, sym, ap, ◌∙◌, ◌⊎◌, inl, inr, Bool, false, some, List, [], ◌∷◌, ◌++◌, ok, arith,
  if◌then◌else◌, >>=-eq-ok, append_assoc, append-nil, if_eq, if_ne,
}
use native.Mathlib.Decide.{ℕ_discrete}
use web_rpc.Prelude.Dict.{lookup, remove, lookup-remove}
use web_rpc.Session.Formats.{Formats}
use web_rpc.Session.Message.{Message}
use web_rpc.Session.State.{State, Delivery, Queue, update_self, drop_stream_sender}
use web_rpc.Session.Dispatcher.{dispatch, dispatch_all, enqueue}
use web_rpc.Session.Streams.{
  Effect, push, stop, skip, message_effect, apply_effect, before, stream_of, Only, Unfed,
  enqueue-other, drop-other, Change, same, item, ended, dispatch-Change,
}

module _ (f : Formats) where
  remove-some :
      (n q c : ℕ) (s : State f)
      → lookup q (remove n s.stream_callbacks) ≡ some c
      → (n ≢ q) × (lookup q s.stream_callbacks ≡ some c)
  remove-some n q c s h = ground (arith, lookup-remove n q s.stream_callbacks)

  Change-Unfed :
      {s t : State f} {effect : ℕ → Effect f} (c : ℕ)
      → Unfed f c s
      → Change f s t effect
      → (t.queues c ≡ s.queues c) × Unfed f c t
  Change-Unfed {s} {t} c u (same _ e g) = (ap (λ k. k c) g, λ n h. u n (rw e at h))
  Change-Unfed {s} {t} c u (item n d _ e g) = (
    ap (λ k. k c) g ∙ enqueue-other f (lookup n s.stream_callbacks) d s.queues c (u n),
    λ m h. u m (rw e at h),
  )
  Change-Unfed {s} {t} c u (ended n _ e g) = (
    ap (λ k. k c) g ∙ drop-other f (lookup n s.stream_callbacks) s.queues c (u n),
    λ m h. u m (remove-some n m c s (rw e at h)).1,
  )

  dispatch_all-Unfed :
      (ms : List (Message f)) (s : State f) (c : ℕ) {t : State f}
      → Unfed f c s
      → dispatch_all f ms s ≡ ok t
      → t.queues c ≡ s.queues c
  unfolding dispatch_all
  dispatch_all-Unfed [] s c u e = ground arith
  dispatch_all-Unfed (m ∷ ms) s c u e =
      let (r, e₁, e₂) = >>=-eq-ok (dispatch f m s) _ e in
      let (q, u') = Change-Unfed c u (dispatch-Change f m s e₁) in
      dispatch_all-Unfed ms r c u' e₂ ∙ q

  -- What is left of a stream after a message: it ended, or is fed as before.
  abbrev Goes : ℕ → ℕ → Effect f → State f → Type 0
  Goes q c x t =
      ((x ≡ stop) × Unfed f c t)
      ⊎ ((x ≢ stop) × (lookup q t.stream_callbacks ≡ some c) × Only f q c t)

  Change-fed :
      {s t : State f} {effect : ℕ → Effect f} (q c : ℕ)
      → lookup q s.stream_callbacks ≡ some c
      → Only f q c s
      → Change f s t effect
      → (t.queues c ≡ apply_effect f (effect q) (s.queues c)) × Goes q c (effect q) t
  Change-fed {s} {t} q c here only (same x e g) =
      rw (x q) (ap (λ k. k c) g, inr ((λ k. cc), rw e here, λ n h. only n (rw e at h)))
  Change-fed {s} {t} q c here only (item n d x e g) = elim (ℕ_discrete n q) [
    | yes p ↦
        let y = x q ∙ if_eq (push d) skip p in
        let at_n : lookup n s.stream_callbacks ≡ some c = rw p here in
        rw y (
          ap (λ k. k c) g
              ∙ ap (λ o. enqueue f o d s.queues c) at_n
              ∙ update_self s.queues c
                  (record (s.queues c) { items = (s.queues c).items ++ d ∷ [] }),
          inr ((λ k. cc), rw e here, λ m h. only m (rw e at h)),
        )
    | no p ↦
        let y = x q ∙ if_ne (push d) skip p in
        rw y (
          ap (λ k. k c) g
              ∙ enqueue-other f (lookup n s.stream_callbacks) d s.queues c (λ k. p (only n k)),
          inr ((λ k. cc), rw e here, λ m h. only m (rw e at h)),
        )
  ]
  Change-fed {s} {t} q c here only (ended n x e g) = elim (ℕ_discrete n q) [
    | yes p ↦
        let y = x q ∙ if_eq stop skip p in
        let at_n : lookup n s.stream_callbacks ≡ some c = rw p here in
        rw y (
          ap (λ k. k c) g
              ∙ ap (λ o. drop_stream_sender f o s.queues c) at_n
              ∙ update_self s.queues c (record (s.queues c) { is_open = false }),
          inl (
            refl,
            λ m h. let (ne, old) = remove-some n m c s (rw e at h) in ne (p ∙ sym (only m old)),
          ),
        )
    | no p ↦
        let y = x q ∙ if_ne stop skip p in
        rw y (
          ap (λ k. k c) g
              ∙ drop-other f (lookup n s.stream_callbacks) s.queues c (λ k. p (only n k)),
          inr (
            (λ k. cc),
            rw e (ground (arith, lookup-remove n q s.stream_callbacks)),
            λ m h. only m (remove-some n m c s (rw e at h)).1,
          ),
        )
  ]

  -- A queue after the items and perhaps the end of a stream.
  abbrev pub extend : List (Delivery f) × Bool → Queue f → Queue f
  extend (ds, over) c = record {
    items = c.items ++ ds;
    is_open = if over then false else c.is_open;
  }

  extend-before :
      (x : Effect f) (r : List (Delivery f) × Bool) (c : Queue f)
      → x ≢ stop
      → extend r (apply_effect f x c) ≡ extend (before f x r) c
  extend-before (push d) (ds, over) c h = simp append_assoc
  extend-before stop r c h = absurd (h refl)
  extend-before skip r c h = refl

  -- While a stream is open and its channel is its own, the messages that arrive add to its buffer just
  -- the items sent for its number, in order and up to its end marker, and that marker closes it.
  pub dispatch_all-stream :
      (ms : List (Message f)) (s : State f) (q c : ℕ) {t : State f}
      → lookup q s.stream_callbacks ≡ some c
      → Only f q c s
      → dispatch_all f ms s ≡ ok t
      → t.queues c ≡ extend (stream_of f q ms) (s.queues c)
  unfolding dispatch_all stream_of
  dispatch_all-stream [] s q c {t} here only e =
      let same_state : s ≡ t = cc in
      ap (λ (u : State f). u.queues c) (sym same_state) ∙ simp append-nil
  dispatch_all-stream (m ∷ ms) s q c here only e =
      let (r, e₁, e₂) = >>=-eq-ok (dispatch f m s) _ e in
      let (now, goes) = Change-fed q c here only (dispatch-Change f m s {t = r} e₁) in
      elim goes [
        | inl (over, u) ↦ dispatch_all-Unfed ms r c u e₂ ∙ now ∙ rw over (simp append-nil)
        | inr (on, there, only') ↦
            dispatch_all-stream ms r q c there only' e₂
            ∙ ap (extend (stream_of f q ms)) now
            ∙ extend-before (message_effect f q m) (stream_of f q ms) (s.queues c) on
      ]
