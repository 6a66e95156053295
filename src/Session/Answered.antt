-- ===== src/Session/Answered.antt =====
-- A response for a request that a client awaits, over any history of an interface.
use web_rpc.Prelude.{ℕ, ◌≡◌, ◌⊎◌, inl, inr, Bool, some, List, Outcome, ok, ◌>>=◌}
use web_rpc.Session.Formats.{Formats}
use web_rpc.Session.Message.{Item}
use web_rpc.Session.State.{State, Delivery, waiting, delivered}
use web_rpc.Session.Dispatcher.{dispatch}
use web_rpc.Session.Client.{ready, disarm, poll_request, poll_cell}
use web_rpc.Session.Sound.{awaited, answered}
use web_rpc.Session.World.{World, handle, Reach, Unshared}
use web_rpc.Session.Live.{start, start-Inv, Reach-Inv}
use web_rpc.Session.Replies.{reply, reply-reaches}

module _ (f : Formats) where
  -- In every world that an interface reaches from its start by a history in which no call takes the number of
  -- a request that is live then, the future of a live request is in one of two states. Its channel holds
  -- a response, and a poll decodes that one and is ready. Or a response of its number that is dispatched
  -- now makes it ready, with that response and the Javascript values behind it.
  pub reply-live {ℓ} :
      {T : Type ℓ} (decode : Delivery f → Outcome T) (has_server : Bool) (w : World f) (q c : ℕ)
      (r : f.Response) (xs ys : List (Item f)) (reached : Reach f (start f has_server) w)
      → Unshared f reached
      → w.live c ≡ some q
      → ((d : Delivery f) × (w.state.oneshots c ≡ delivered d)
          × (poll_request f decode (handle f q c) w.state
              ≡ (decode d >>= λ x. ok (ready x, disarm (handle f q c), w.state))))
        ⊎ ((w.state.oneshots c ≡ waiting)
            × (v : State f) × (dispatch f (reply f q r xs ys) w.state ≡ ok v)
            × (v.oneshots c ≡ delivered (r, xs))
            × (poll_request f decode (handle f q c) v
                ≡ (decode (r, xs) >>= λ x. ok (ready x, disarm (handle f q c), v))))
  unfolding poll_request poll_cell
  reply-live {T} decode has_server w q c r xs ys reached unshared live =
      elim ((Reach-Inv f reached unshared (start-Inv f has_server)).pending q c live) [
        | awaited e empty ↦
            let (v, d, held, polled, _, _, _, _) =
              reply-reaches f decode (handle f q c) r xs ys w.state e in
            inr (empty, v, d, held, polled)
        | answered d e _ ↦ inl (d, e, rw e)
      ]
