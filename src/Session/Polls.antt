-- ===== src/Session/Polls.antt =====
-- The polls of an interface (web-rpc/src/client.rs, lib.rs) as a closure: what holds between the states before and
-- after each message that is dispatched holds between those before and after a poll.
use web_rpc.Prelude.{
  ℕ, ◌≡◌, subst, Bool, true, false, Option, List, [], ◌∷◌, Outcome, ok, ◌>>=◌, >>=-eq-ok,
}
use web_rpc.Session.Formats.{Formats}
use web_rpc.Session.Message.{Message}
use web_rpc.Session.State.{State, Delivery, Oneshot, waiting, delivered, closed}
use web_rpc.Session.Dispatcher.{dispatch, dispatch_all, poll_dispatcher}
use web_rpc.Session.Client.{
  Handle, Poll, wait, poll_cell, poll_request, poll_items, poll_stream, keep_items,
}

module _ (f : Formats) where
  -- A relation that the parts of a poll keep.
  pub record IsKept {ℓ} (R : State f → State f → Type ℓ) : Type ℓ where
    pub reflexive : (s : State f) → R s s
    pub transitive : {s t u : State f} → R s t → R t u → R s u
    pub dispatched : (m : Message f) (s : State f) {t : State f} → dispatch f m s ≡ ok t → R s t
    pub emptied : (s : State f) → R s (record s { inbox = [] })
    pub taken_items : (c : ℕ) (ds : List (Delivery f)) (s : State f) → R s (keep_items f c ds s)

  module _ {ℓ} {R : State f → State f → Type ℓ} (k : IsKept R) where
    pub dispatch_all-kept :
        (ms : List (Message f)) (s : State f) {t : State f} → dispatch_all f ms s ≡ ok t → R s t
    unfolding dispatch_all
    dispatch_all-kept [] s {t} e = subst (R s) (let p : s ≡ t = cc in p) (k.reflexive s)
    dispatch_all-kept (m ∷ ms) s e =
        let (u, e₁, e₂) = >>=-eq-ok (dispatch f m s) _ e in
        k.transitive (k.dispatched m s {t = u} e₁) (dispatch_all-kept ms u e₂)

    pub poll_dispatcher-kept :
        (s : State f) {r : State f × Bool} → poll_dispatcher f s ≡ ok r → R s r.0
    unfolding poll_dispatcher
    poll_dispatcher-kept s {r} e =
        let s₀ : State f = record s { inbox = [] } in
        let (t, e₁, e₂) = >>=-eq-ok (dispatch_all f s.inbox s₀) _ e in
        let done : t ≡ r.0 = cc in
        subst (R s) done (k.transitive (k.emptied s) (dispatch_all-kept s.inbox s₀ {t = t} e₁))

    same-kept : {s t : State f} → s ≡ t → R s t
    same-kept {s} e = subst (R s) e (k.reflexive s)

    wait-kept {ℓ'} :
        {T : Type ℓ'} (h : Handle) (s : State f) {x : Poll T × Handle × State f}
        → (poll_dispatcher f s >>= wait f h) ≡ ok x
        → R s x.2
    wait-kept h s {x} e =
        let (r, e₁, e₂) = >>=-eq-ok (poll_dispatcher f s) (wait f h) e in
        subst (R s) (waited r e₂) (poll_dispatcher-kept s e₁)
      where
        waited : (r : State f × Bool) → wait f h r ≡ ok x → r.0 ≡ x.2
        waited (t, true) p = cc
        waited (t, false) p = cc

    module _ {ℓ'} {T : Type ℓ'} (decode : Delivery f → Outcome T) where
      poll_cell-kept :
          (cell : Oneshot f) (h : Handle) (s : State f) {x : Poll T × Handle × State f}
          → poll_cell f decode cell h s ≡ ok x
          → R s x.2
      unfolding poll_cell
      poll_cell-kept waiting h s e = wait-kept h s e
      poll_cell-kept (delivered d) h s e =
          let (t, _, e₂) = >>=-eq-ok (decode d) _ e in same-kept (cc)
      poll_cell-kept closed h s e = cc

      pub poll_request-kept :
          (h : Handle) (s : State f) {x : Poll T × Handle × State f}
          → poll_request f decode h s ≡ ok x
          → R s x.2
      unfolding poll_request
      poll_request-kept h s e = poll_cell-kept (s.oneshots h.channel) h s e

      poll_items-kept :
          (ds : List (Delivery f)) (is_open : Bool) (h : Handle) (s : State f)
          {x : Poll (Option T) × Handle × State f}
          → poll_items f decode ds is_open h s ≡ ok x
          → R s x.2
      unfolding poll_items
      poll_items-kept (d ∷ ds) is_open h s {x} e =
          let (t, _, e₂) = >>=-eq-ok (decode d) _ e in
          let kept : keep_items f h.channel ds s ≡ x.2 = cc in
          subst (R s) kept (k.taken_items h.channel ds s)
      poll_items-kept [] true h s e = wait-kept h s e
      poll_items-kept [] false h s e = same-kept (cc)

      pub poll_stream-kept :
          (h : Handle) (s : State f) {x : Poll (Option T) × Handle × State f}
          → poll_stream f decode h s ≡ ok x
          → R s x.2
      unfolding poll_stream
      poll_stream-kept h s e =
          poll_items-kept (s.queues h.channel).items (s.queues h.channel).is_open h s e
