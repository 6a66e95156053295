-- ===== src/Session/Sound.antt =====
-- The maps of an interface hold the senders of pairwise different channels that nothing was sent on.
use web_rpc.Prelude.{
  ℕ, ◌≤◌, ◌<◌, ◌≡◌, refl, ◌≢◌, Option, none, some, ok, [], ◌∷◌, arith, ap, ◌∙◌, subst, >>=-eq-ok,
}
use web_rpc.Prelude.Dict.{lookup, remove, lookup-remove}
use web_rpc.Session.Formats.{
  Formats, MessageHeader, request, abort, response, stream_item, stream_end,
}
use web_rpc.Session.Message.{Message, buffer, value, take_bytes}
use web_rpc.Session.State.{
  State, Delivery, Oneshot, waiting, delivered, update-other, update_self, drop_sender-other,
  remove_callback, remove_stream_callback,
}
use web_rpc.Session.Dispatcher.{
  on_request, on_abort, on_response, on_stream_item, on_header, dispatch, unwrap, deliver,
}
use native.Mathlib.Decide.{ℕ_discrete}

module _ (f : Formats) where
  pub record IsSound (s : State f) : Type 0 where
    pub fresh : (q c : ℕ) → lookup q s.callbacks ≡ some c → c < s.next_channel
    pub held : (q c : ℕ) → lookup q s.callbacks ≡ some c → s.oneshots c ≡ waiting
    pub unique : (q r c : ℕ) → lookup q s.callbacks ≡ some c → lookup r s.callbacks ≡ some c → q ≡ r

  -- A request that the client still awaits: its sender is in the map, or has sent.
  pub data IsPending (s : State f) (number channel : ℕ) : Type 0 where
    awaited :
        lookup number s.callbacks ≡ some channel
        → s.oneshots channel ≡ waiting
        → IsPending s number channel
    answered :
        (d : Delivery f)
        → s.oneshots channel ≡ delivered d
        → channel < s.next_channel
        → IsPending s number channel

  -- Two states that agree on what these predicates read.
  pub record Agrees (s t : State f) : Type 0 where
    pub same_callbacks : t.callbacks ≡ s.callbacks
    pub same_oneshots : t.oneshots ≡ s.oneshots
    pub grows : s.next_channel ≤ t.next_channel

  pub Agrees-IsSound : {s t : State f} → Agrees s t → IsSound s → IsSound t
  Agrees-IsSound {s} {t} a v = record {
    fresh = rw a.same_callbacks (λ q c h. omega (arith, v.fresh q c h, a.grows));
    held = rw (a.same_callbacks, a.same_oneshots) v.held;
    unique = rw a.same_callbacks v.unique;
  }

  pub Agrees-IsPending : {s t : State f} {q c : ℕ} → Agrees s t → IsPending s q c → IsPending t q c
  Agrees-IsPending a (awaited e w) = awaited (rw a.same_callbacks e) (rw a.same_oneshots w)
  Agrees-IsPending a (answered d e lt) = answered d (rw a.same_oneshots e) (omega (arith, a.grows))

  -- Taking a number out of the map, and doing what one likes with its channel alone.
  module _ (s t : State f) (q₀ : ℕ) (callbacks : t.callbacks ≡ remove q₀ s.callbacks)
      (channel : t.next_channel ≡ s.next_channel)
      (others : (c : ℕ) → lookup q₀ s.callbacks ≢ some c → t.oneshots c ≡ s.oneshots c) where
    taken : (q c : ℕ) → lookup q t.callbacks ≡ some c → (lookup q s.callbacks ≡ some c) × (q₀ ≢ q)
    taken q c h =
        let e : lookup q t.callbacks ≡ lookup q (remove q₀ s.callbacks) = ap (lookup q) callbacks in
        ground (arith, e, lookup-remove q₀ q s.callbacks)

    taken-IsSound : IsSound s → IsSound t
    taken-IsSound v = record {
      fresh = λ q c h. rw channel (v.fresh q c (taken q c h).0);
      held = λ q c h.
          others c (λ k. (taken q c h).1 (v.unique q₀ q c k (taken q c h).0))
          ∙ v.held q c (taken q c h).0;
      unique = λ q r c h k. v.unique q r c (taken q c h).0 (taken r c k).0;
    }

    taken-answered :
        {q c : ℕ} (d : Delivery f)
        → IsSound s
        → s.oneshots c ≡ delivered d
        → c < s.next_channel
        → IsPending t q c
    taken-answered {c = c} d v e lt =
        answered d (others c (λ k. cc (v.held q₀ c k)) ∙ e) (rw channel lt)

    taken-IsPending : {q c : ℕ} → IsSound s → q₀ ≢ q → IsPending s q c → IsPending t q c
    taken-IsPending {q} {c} v ne (awaited e w) =
        let found : lookup q t.callbacks ≡ some c =
          ap (lookup q) callbacks ∙ ground (arith, lookup-remove q₀ q s.callbacks) in
        awaited found (others c (λ k. ne (v.unique q₀ q c k e)) ∙ w)
    taken-IsPending v ne (answered d e lt) = taken-answered d v e lt

  remove_callback-others :
      (s : State f) (q₀ c : ℕ)
      → lookup q₀ s.callbacks ≢ some c
      → (remove_callback f q₀ s).oneshots c ≡ s.oneshots c
  unfolding remove_callback
  remove_callback-others s q₀ c h = drop_sender-other f (lookup q₀ s.callbacks) s.oneshots c h

  pub remove_callback-IsSound :
      (s : State f) (q₀ : ℕ) → IsSound s → IsSound (remove_callback f q₀ s)
  unfolding remove_callback
  remove_callback-IsSound s q₀ v =
      taken-IsSound s (remove_callback f q₀ s) q₀ refl refl (remove_callback-others s q₀) v

  pub remove_callback-IsPending :
      (s : State f) (q₀ : ℕ) {q c : ℕ}
      → IsSound s
      → q₀ ≢ q
      → IsPending s q c
      → IsPending (remove_callback f q₀ s) q c
  unfolding remove_callback
  remove_callback-IsPending s q₀ =
      taken-IsPending s (remove_callback f q₀ s) q₀ refl refl (remove_callback-others s q₀)

  deliver-other :
      (o : Option ℕ) (cells : ℕ → Oneshot f) (c : ℕ) (d : Delivery f)
      → o ≢ some c
      → deliver f o d cells c ≡ cells c
  deliver-other none cells c d h = refl
  deliver-other (some b) cells c d h = update-other cells b c (delivered d) (λ k. h (ap some k))

  abbrev after_response : ℕ → Delivery f → State f → State f
  after_response q₀ d s = record s {
    callbacks = remove q₀ s.callbacks;
    oneshots = deliver f (lookup q₀ s.callbacks) d s.oneshots;
  }

  -- What a message leaves of the maps and the channels of pending requests.
  pub record Keeps (s t : State f) : Type 0 where
    pub sound : IsSound t
    pub pending : (q c : ℕ) → IsPending s q c → IsPending t q c

  pub Agrees-Keeps : {s t : State f} → IsSound s → Agrees s t → Keeps s t
  Agrees-Keeps v a = record { sound = Agrees-IsSound a v; pending = λ q c h. Agrees-IsPending a h }

  pub Keeps-trans : {s t u : State f} → Keeps s t → Keeps t u → Keeps s u
  Keeps-trans k l = record { sound = l.sound; pending = λ q c h. l.pending q c (k.pending q c h) }

  module _ (s : State f) (q₀ : ℕ) (d : Delivery f) (v : IsSound s) where
    after_response-others :
        (c : ℕ) → lookup q₀ s.callbacks ≢ some c → (after_response q₀ d s).oneshots c ≡ s.oneshots c
    after_response-others c = deliver-other (lookup q₀ s.callbacks) s.oneshots c d

    -- The awaited request of that number is answered.
    after_response-answered :
        (c : ℕ) → lookup q₀ s.callbacks ≡ some c → IsPending (after_response q₀ d s) q₀ c
    after_response-answered c e =
        answered d
          (ap (λ (o : Option ℕ). deliver f o d s.oneshots c) e
            ∙ update_self s.oneshots c (delivered d))
          (v.fresh q₀ c e)

    after_response-IsPending : (q c : ℕ) → IsPending s q c → IsPending (after_response q₀ d s) q c
    after_response-IsPending q c (awaited e w) = elim (ℕ_discrete q₀ q) [
      | yes same ↦
          subst (λ n. IsPending (after_response q₀ d s) n c) same
            (after_response-answered c (rw same e))
      | no ne ↦
          taken-IsPending s (after_response q₀ d s) q₀ refl refl after_response-others v ne
            (awaited e w)
    ]
    after_response-IsPending q c (answered e w lt) =
        taken-answered s (after_response q₀ d s) q₀ refl refl after_response-others e v w lt

    after_response-Keeps : Keeps s (after_response q₀ d s)
    after_response-Keeps = record {
      sound = taken-IsSound s (after_response q₀ d s) q₀ refl refl after_response-others v;
      pending = after_response-IsPending;
    }

  on_response-Keeps :
      (q : ℕ) (m : Message f) (s : State f) {t : State f}
      → IsSound s
      → on_response f q m s ≡ ok t
      → Keeps s t
  unfolding on_response
  on_response-Keeps q m s v e =
      let (taken_bytes, _, e₁) = >>=-eq-ok (take_bytes f m) _ e in
      let (r, _, e₂) = >>=-eq-ok (unwrap f (f.read_response taken_bytes.0)) _ e₁ in
      subst (Keeps s) (cc) (after_response-Keeps s q (r, taken_bytes.1) v)

  on_request-Agrees :
      (q : ℕ) (m : Message f) (s : State f) {t : State f} → on_request f q m s ≡ ok t → Agrees s t
  unfolding on_request take_bytes
  on_request-Agrees q [] s e = cc
  on_request-Agrees q (buffer b ∷ m) s e = ground arith
  on_request-Agrees q (value x ∷ m) s e = cc

  on_stream_item-Agrees :
      (q : ℕ) (m : Message f) (s : State f) {t : State f}
      → on_stream_item f q m s ≡ ok t
      → Agrees s t
  unfolding on_stream_item take_bytes
  on_stream_item-Agrees q [] s e = cc
  on_stream_item-Agrees q (buffer b ∷ m) s e = ground arith
  on_stream_item-Agrees q (value x ∷ m) s e = cc

  on_header-Keeps :
      (h : MessageHeader) (m : Message f) (s : State f) {t : State f}
      → IsSound s
      → on_header f h m s ≡ ok t
      → Keeps s t
  unfolding on_header on_request on_abort on_stream_item remove_stream_callback take_bytes
  on_header-Keeps (request q) m s v e = Agrees-Keeps v (on_request-Agrees q m s e)
  on_header-Keeps (abort q) m s v e = Agrees-Keeps v (ground arith)
  on_header-Keeps (response q) m s v e = on_response-Keeps q m s v e
  on_header-Keeps (stream_item q) m s v e = Agrees-Keeps v (on_stream_item-Agrees q m s e)
  on_header-Keeps (stream_end q) m s v e = Agrees-Keeps v (ground arith)

  -- A message that is handled without a panic keeps the maps sound and every request pending.
  pub dispatch-Keeps :
      (m : Message f) (s : State f) {t : State f} → IsSound s → dispatch f m s ≡ ok t → Keeps s t
  unfolding dispatch
  dispatch-Keeps m s v e =
      let (bytes, _, e₁) = >>=-eq-ok (take_bytes f m) _ e in
      let (h, _, e₂) = >>=-eq-ok (unwrap f (f.read_header bytes.0)) _ e₁ in
      on_header-Keeps h bytes.1 s v e₂
