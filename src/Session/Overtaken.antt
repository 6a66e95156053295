-- ===== src/Session/Overtaken.antt =====
-- What web-rpc/src/client.rs does where the counter has wrapped around to the number of a request that is still
-- awaited.
use web_rpc.Prelude.{ℕ, ◌≡◌, ◌<◌, refl, sym, ◌∙◌, Bool, some, List, Outcome, panic, arith}
use web_rpc.Prelude.Dict.{lookup}
use web_rpc.Session.Formats.{Formats}
use web_rpc.Session.Message.{Item}
use web_rpc.Session.State.{
  State, Delivery, waiting, closed, update-other, update_self, drop_sender, insert_callback,
}
use web_rpc.Session.Client.{send, request_handle, poll_request, poll_cell}
use web_rpc.Session.Sound.{awaited, answered}
use web_rpc.Session.World.{World, handle, call, Reach, Unshared}
use web_rpc.Session.Live.{start, start-Inv, Reach-Inv}

module _ (f : Formats) where
  overtaken-closed :
      (r : f.Request) (xs ys : List (Item f)) (s : State f) (c : ℕ)
      → lookup s.sequence s.callbacks ≡ some c
      → c < s.next_channel
      → (call f r xs ys s).1.oneshots c ≡ closed
  unfolding send request_handle insert_callback
  overtaken-closed r xs ys s c here lt =
      update-other (drop_sender f (lookup s.sequence s.callbacks) s.oneshots) s.next_channel c
        waiting (omega arith)
      ∙ rw here (update_self s.oneshots c closed)

  -- In every world that an interface reaches from its start by a history in which no call takes the number of
  -- a request that is live then, suppose that the counter stands at the number of a live request whose
  -- response has not come. A call then takes that number and drops the sender of the older request,
  -- whose future panics when it is polled next.
  pub call-overtakes {ℓ} :
      {T : Type ℓ} (decode : Delivery f → Outcome T) (has_server : Bool) (w : World f) (c : ℕ)
      (r : f.Request) (xs ys : List (Item f)) (reached : Reach f (start f has_server) w)
      → Unshared f reached
      → w.live c ≡ some w.state.sequence
      → w.state.oneshots c ≡ waiting
      → ((call f r xs ys w.state).0.number ≡ w.state.sequence)
        × (poll_request f decode (handle f w.state.sequence c) (call f r xs ys w.state).1 ≡ panic)
  unfolding poll_request poll_cell send request_handle
  call-overtakes decode has_server w c r xs ys reached unshared live empty =
      let v = Reach-Inv f reached unshared (start-Inv f has_server) in
      elim (v.pending w.state.sequence c live) [
        | awaited here _ ↦ (
          refl,
          rw (overtaken-closed r xs ys w.state c here (v.sound.fresh w.state.sequence c here)) refl,
        )
        | answered d e _ ↦ absurd (let p = sym empty ∙ e in cc)
      ]
