-- ===== src/Session/Calls.antt =====
-- The calls of web-rpc/src/client.rs keep every other request pending.
use native.Mathlib.Decide.{ℕ_discrete}
use web_rpc.Prelude.{
  ℕ, ◌<◌, ◌≡◌, ◌≢◌, refl, sym, ap, ◌∙◌, ◌⊎◌, inl, inr, some, List, arith, Bool-cases,
}
use web_rpc.Prelude.Dict.{Dict, lookup, insert, lookup-insert}
use web_rpc.Session.Formats.{Formats}
use web_rpc.Session.Message.{Item}
use web_rpc.Session.State.{
  State, waiting, update-other, update_self, drop_sender, drop_sender-other, insert_callback,
  insert_stream_callback, remove_stream_callback,
}
use web_rpc.Session.Client.{Handle, send, request_handle, stream_handle, fire_request, fire_stream}
use web_rpc.Session.Polls.{IsKept}
use web_rpc.Session.Sound.{
  IsSound, IsPending, awaited, answered, Agrees, Keeps, Agrees-Keeps, Agrees-IsSound,
  Agrees-IsPending, Keeps-trans, remove_callback-IsSound, remove_callback-IsPending, dispatch-Keeps,
}

found {ℓ} :
    {V : Type ℓ} (q₀ q : ℕ) (n c : V) (d : Dict V)
    → lookup q (insert q₀ n d) ≡ some c
    → ((q₀ ≡ q) × (c ≡ n)) ⊎ ((q₀ ≢ q) × (lookup q d ≡ some c))
found q₀ q n c d h = elim (ℕ_discrete q₀ q) [
  | yes same ↦ inl (same, ground (arith, lookup-insert q₀ q n d))
  | no ne ↦ inr (ne, ground (arith, lookup-insert q₀ q n d))
]

module _ (f : Formats) where
  module _ (q₀ : ℕ) (s : State f) (v : IsSound f s) where
    abbrev pub after_request : State f
    after_request = (request_handle f q₀ s).1

    request_handle-others :
        (q c : ℕ) → q₀ ≢ q → lookup q s.callbacks ≡ some c → after_request.oneshots c ≡ s.oneshots c
    unfolding request_handle insert_callback
    request_handle-others q c ne e =
        let lt : c < s.next_channel = v.fresh q c e in
        update-other (drop_sender f (lookup q₀ s.callbacks) s.oneshots) s.next_channel c waiting
          (omega arith)
        ∙ drop_sender-other f (lookup q₀ s.callbacks) s.oneshots c (λ k. ne (v.unique q₀ q c k e))

    request_handle-new : after_request.oneshots s.next_channel ≡ waiting
    unfolding request_handle insert_callback
    request_handle-new =
        update_self (drop_sender f (lookup q₀ s.callbacks) s.oneshots) s.next_channel waiting

    pub request_handle-IsSound : IsSound f after_request
    unfolding request_handle insert_callback
    request_handle-IsSound = record {
      fresh = λ q c h. elim (found q₀ q s.next_channel c s.callbacks h) [
        | inl (_, e) ↦ omega arith
        | inr (_, e) ↦ omega (arith, v.fresh q c e)
      ];
      held = λ q c h. elim (found q₀ q s.next_channel c s.callbacks h) [
        | inl (_, e) ↦ ap after_request.oneshots e ∙ request_handle-new
        | inr (ne, e) ↦ request_handle-others q c ne e ∙ v.held q c e
      ];
      unique = λ q r c h k. elim (found q₀ q s.next_channel c s.callbacks h) [
        | inl (p, e) ↦ elim (found q₀ r s.next_channel c s.callbacks k) [
          | inl (p', _) ↦ sym p ∙ p'
          | inr (_, e') ↦ absurd (omega (arith, v.fresh r c e'))
        ]
        | inr (_, e) ↦ elim (found q₀ r s.next_channel c s.callbacks k) [
          | inl (_, e') ↦ absurd (omega (arith, v.fresh q c e))
          | inr (_, e') ↦ v.unique q r c e e'
        ]
      ];
    }

    pub request_handle-IsPending :
        (q c : ℕ) → q₀ ≢ q → IsPending f s q c → IsPending f after_request q c
    unfolding request_handle insert_callback
    request_handle-IsPending q c ne (awaited e w) =
        awaited (ground (arith, lookup-insert q₀ q s.next_channel s.callbacks))
          (request_handle-others q c ne e ∙ w)
    request_handle-IsPending q c ne (answered d e lt) =
        answered d
          (update-other (drop_sender f (lookup q₀ s.callbacks) s.oneshots) s.next_channel c waiting
              (omega arith)
            ∙ drop_sender-other f (lookup q₀ s.callbacks) s.oneshots c (λ k. cc (v.held q₀ c k))
            ∙ e)
          (omega arith)

    -- The new request is pending on the channel that its handle names.
    pub request_handle_self : IsPending f after_request q₀ (request_handle f q₀ s).0.channel
    unfolding request_handle insert_callback
    request_handle_self =
        awaited (ground (arith, lookup-insert q₀ q₀ s.next_channel s.callbacks)) request_handle-new

  stream_handle-Agrees : (q : ℕ) (s : State f) → Agrees f s (stream_handle f q s).1
  unfolding stream_handle insert_stream_callback
  stream_handle-Agrees q s = ground arith

  pub stream_handle-Keeps : (q : ℕ) (s : State f) → IsSound f s → Keeps f s (stream_handle f q s).1
  stream_handle-Keeps q s v = Agrees-Keeps f v (stream_handle-Agrees q s)

  pub send-Keeps :
      (r : f.Request) (xs ys : List (Item f)) (s : State f)
      → IsSound f s
      → Keeps f s (send f r xs ys s).1
  unfolding send
  send-Keeps r xs ys s v =
      Agrees-Keeps f v (record { same_callbacks = refl; same_oneshots = refl; grows = omega arith })

  pub fire_stream-Keeps : (h : Handle) (s : State f) → IsSound f s → Keeps f s (fire_stream f h s).1
  unfolding fire_stream remove_stream_callback
  fire_stream-Keeps h s v = Agrees-Keeps f v (ground arith)

  -- Dropping a request leaves the requests of other numbers pending.
  pub fire_request-IsSound :
      (h : Handle) (s : State f) → IsSound f s → IsSound f (fire_request f h s).1
  unfolding fire_request
  fire_request-IsSound h s v = elim (Bool-cases h.active) [
    | inl on ↦ rw on (
        Agrees-IsSound f
          (record { same_callbacks = refl; same_oneshots = refl; grows = omega arith })
          (remove_callback-IsSound f s h.number v))
    | inr off ↦ rw off v
  ]

  pub fire_request-IsPending :
      (h : Handle) (s : State f) {q c : ℕ}
      → IsSound f s
      → h.number ≢ q
      → IsPending f s q c
      → IsPending f (fire_request f h s).1 q c
  unfolding fire_request
  fire_request-IsPending h s v ne p = elim (Bool-cases h.active) [
    | inl on ↦ rw on (
        Agrees-IsPending f
          (record { same_callbacks = refl; same_oneshots = refl; grows = omega arith })
          (remove_callback-IsPending f s h.number v ne p))
    | inr off ↦ rw off p
  ]

  Agrees-refl : (s : State f) → Agrees f s s
  Agrees-refl s = record { same_callbacks = refl; same_oneshots = refl; grows = omega arith }

  -- A poll keeps every request pending, the polled one too until it is ready.
  pub Keeps-IsKept : IsKept f (λ s t. IsSound f s → Keeps f s t)
  Keeps-IsKept = record {
    reflexive = λ s v. Agrees-Keeps f v (Agrees-refl s);
    transitive = λ a b v. let k = a v in Keeps-trans f k (b k.sound);
    dispatched = λ m s e v. dispatch-Keeps f m s v e;
    emptied = λ s v.
        Agrees-Keeps f v
          (record { same_callbacks = refl; same_oneshots = refl; grows = omega arith });
    taken_items = λ c ds s v.
        Agrees-Keeps f v
          (record { same_callbacks = refl; same_oneshots = refl; grows = omega arith });
  }
