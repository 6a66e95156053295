-- ===== src/Session/Live.antt =====
-- The requests that a client awaits, over any history of an interface.
use web_rpc.Prelude.{
  ℕ, ◌≡◌, ◌≢◌, refl, ◌∙◌, sym, ap, ◌⊎◌, inl, inr, subst₂, Bool, Option, none, some, List, arith,
}
use native.Mathlib.Decide.{ℕ_discrete}
use web_rpc.Prelude.Dict.{lookup}
use web_rpc.Session.Formats.{Formats}
use web_rpc.Session.Message.{Item}
use web_rpc.Session.State.{State, update, update-other}
use web_rpc.Session.Client.{send, fire_request, request_handle}
use web_rpc.Session.Sound.{IsSound, IsPending, Keeps, Agrees, Agrees-Keeps, Keeps-trans}
use web_rpc.Session.Calls.{
  request_handle-IsSound, request_handle-IsPending, request_handle_self, send-Keeps,
  stream_handle-Keeps, fire_stream-Keeps, fire_request-IsSound, fire_request-IsPending,
  Keeps-IsKept,
}
use web_rpc.Session.Polls.{poll_dispatcher-kept, poll_request-kept, poll_stream-kept}
use web_rpc.Session.World.{
  World, initial, handle, call, Step, called, notified, streamed, arrived, dropped, polled,
  finished, stream_polled, stream_fired, served, taken, stopped, drop_server, Reach, here, next,
  IsUnshared, Unshared,
}

module _ (f : Formats) where
  pub record Inv (w : World f) : Type 0 where
    pub sound : IsSound f w.state
    pub pending : (q c : ℕ) → w.live c ≡ some q → IsPending f w.state q c
    pub distinct : (q c d : ℕ) → w.live c ≡ some q → w.live d ≡ some q → c ≡ d

  abbrev pub start : Bool → World f
  start has_server = record { state = initial f has_server; live = λ _. none }

  pub start-Inv : (has_server : Bool) → Inv (start has_server)
  unfolding lookup
  start-Inv has_server = record {
    sound = record { fresh = λ q c h. cc; held = λ q c h. cc; unique = λ q r c h k. cc };
    pending = λ q c h. cc;
    distinct = λ q c d h k. cc;
  }

  Keeps-Inv : {w : World f} {s : State f} → Inv w → Keeps f w.state s → Inv (record w { state = s })
  Keeps-Inv v k = record {
    sound = k.sound;
    pending = λ q c h. k.pending q c (v.pending q c h);
    distinct = v.distinct;
  }

  -- What leaves the maps and channels of requests alone keeps every live request pending.
  pub Agrees-Inv :
      {w : World f} {s : State f} → Inv w → Agrees f w.state s → Inv (record w { state = s })
  Agrees-Inv v a = Keeps-Inv v (Agrees-Keeps f v.sound a)

  -- A live request other than the one that ended.
  forgot :
      (live : ℕ → Option ℕ) (c₀ q c : ℕ)
      → update live c₀ none c ≡ some q
      → (c₀ ≢ c) × (live c ≡ some q)
  forgot live c₀ q c h = elim (ℕ_discrete c₀ c) [
    | yes same ↦ ground arith
    | no ne ↦ (ne, sym (update-other live c₀ c none ne) ∙ h)
  ]

  -- A live request after a call: the new one, or one from before.
  joined :
      (live : ℕ → Option ℕ) (c₀ q₀ q c : ℕ)
      → update live c₀ (some q₀) c ≡ some q
      → ((c₀ ≡ c) × (q₀ ≡ q)) ⊎ (live c ≡ some q)
  joined live c₀ q₀ q c h = elim (ℕ_discrete c₀ c) [
    | yes same ↦ inl (same, ground arith)
    | no ne ↦ inr (sym (update-other live c₀ c (some q₀) ne) ∙ h)
  ]

  Keeps-Inv-forgot :
      {w : World f} {s : State f} (c₀ : ℕ)
      → Inv w
      → Keeps f w.state s
      → Inv (record { state = s; live = update w.live c₀ none })
  Keeps-Inv-forgot {w} c₀ v k = record {
    sound = k.sound;
    pending = λ q c h. k.pending q c (v.pending q c (forgot w.live c₀ q c h).1);
    distinct =
        λ q c d h h'. v.distinct q c d (forgot w.live c₀ q c h).1 (forgot w.live c₀ q d h').1;
  }

  called-Inv :
      {w : World f} (r : f.Request) (xs ys : List (Item f))
      → Inv w
      → ((c : ℕ) → w.live c ≢ some w.state.sequence)
      → Inv (record {
        state = (call f r xs ys w.state).1;
        live = update w.live (call f r xs ys w.state).0.channel (some w.state.sequence);
      })
  unfolding send
  called-Inv {w} r xs ys v unshared = record {
    sound = request_handle-IsSound f q₀ s k.sound;
    pending = λ q c h. elim (joined w.live channel q₀ q c h) [
      | inl (own, same) ↦
          subst₂ (IsPending f (request_handle f q₀ s).1) same own
            (request_handle_self f q₀ s k.sound)
      | inr old ↦
          request_handle-IsPending f q₀ s k.sound q c (other old)
            (k.pending q c (v.pending q c old))
    ];
    distinct = λ q c d h h'. elim (joined w.live channel q₀ q c h) [
      | inl (own, same) ↦ elim (joined w.live channel q₀ q d h') [
        | inl (own', _) ↦ sym own ∙ own'
        | inr old' ↦ absurd (other old' same)
      ]
      | inr old ↦ elim (joined w.live channel q₀ q d h') [
        | inl (_, same) ↦ absurd (other old same)
        | inr old' ↦ v.distinct q c d old old'
      ]
    ];
  }
    where
      q₀ : ℕ
      q₀ = w.state.sequence

      s : State f
      s = (send f r xs ys w.state).1

      channel : ℕ
      channel = (request_handle f q₀ s).0.channel

      k : Keeps f w.state s
      k = send-Keeps f r xs ys w.state v.sound

      other : {q c : ℕ} → w.live c ≡ some q → q₀ ≢ q
      other {q} {c} old same = unshared c (old ∙ ap some (sym same))

  dropped-Inv :
      {w : World f} (q₀ c₀ : ℕ)
      → Inv w
      → w.live c₀ ≡ some q₀
      → Inv (record {
        state = (fire_request f (handle f q₀ c₀) w.state).1;
        live = update w.live c₀ none;
      })
  dropped-Inv {w} q₀ c₀ v e = record {
    sound = fire_request-IsSound f (handle f q₀ c₀) w.state v.sound;
    pending = λ q c h.
        let (ne, old) = forgot w.live c₀ q c h in
        fire_request-IsPending f (handle f q₀ c₀) w.state v.sound
          (λ same. ne (v.distinct q c₀ c (e ∙ ap some same) old)) (v.pending q c old);
    distinct =
        λ q c d h h'. v.distinct q c d (forgot w.live c₀ q c h).1 (forgot w.live c₀ q d h').1;
  }

  -- Every step that shares no number keeps each live request pending.
  pub Step-Inv : {w u : World f} (p : Step f w u) → IsUnshared f p → Inv w → Inv u
  unfolding drop_server
  Step-Inv {w} (called r xs ys) n v = called-Inv r xs ys v n
  Step-Inv {w} (notified r xs ys) n v = Keeps-Inv v (send-Keeps f r xs ys w.state v.sound)
  Step-Inv {w} (streamed r xs ys) n v =
      let k = send-Keeps f r xs ys w.state v.sound in
      Keeps-Inv v (Keeps-trans f k (stream_handle-Keeps f _ _ k.sound))
  Step-Inv {w} (arrived m) n v =
      Agrees-Inv v (record { same_callbacks = refl; same_oneshots = refl; grows = omega arith })
  Step-Inv {w} (dropped q c e) n v = dropped-Inv q c v e
  Step-Inv {w} (polled decode q c h s e p) n v =
      Keeps-Inv v (poll_request-kept f (Keeps-IsKept f) decode (handle f q c) w.state p v.sound)
  Step-Inv {w} (finished decode q c t h s e p) n v =
      Keeps-Inv-forgot c v
        (poll_request-kept f (Keeps-IsKept f) decode (handle f q c) w.state p v.sound)
  Step-Inv {w} (stream_polled decode h x p) n v =
      Keeps-Inv v (poll_stream-kept f (Keeps-IsKept f) decode h w.state p v.sound)
  Step-Inv {w} (stream_fired h) n v = Keeps-Inv v (fire_stream-Keeps f h w.state v.sound)
  Step-Inv {w} (served x p) n v =
      Keeps-Inv v (poll_dispatcher-kept f (Keeps-IsKept f) w.state p v.sound)
  Step-Inv {w} (taken rs aborts posts) n v =
      Agrees-Inv v (record { same_callbacks = refl; same_oneshots = refl; grows = omega arith })
  Step-Inv stopped n v =
      Agrees-Inv v (record { same_callbacks = refl; same_oneshots = refl; grows = omega arith })

  pub Reach-Inv : {w u : World f} (r : Reach f w u) → Unshared f r → Inv w → Inv u
  Reach-Inv here n v = v
  Reach-Inv (next r p) (n, n') v = Step-Inv p n' (Reach-Inv r n v)
