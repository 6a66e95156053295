-- ===== src/Handshake/Readiness.antt =====
-- The promises of `Interface::new` in web-rpc/src/interface.rs.
use web_rpc.Prelude.{◌≡◌, ◌⊎◌, true, ◌++◌}
use web_rpc.Handshake.Interface.{End, Reach}
use web_rpc.Handshake.Packets.{arrays, has_null}
use web_rpc.Handshake.Arrival.{Reach-Both}

module _ (Message : Type 0) where
  -- In every state that two ends reach, if the first one's `new` has returned, then the other one listens;
  -- and it has been signalled, or a `null` that will signal it is on its way, so that it does not wait for
  -- ever although nobody polls it any more.
  pub returned-listening :
      (a b : End Message)
      → Reach Message a b
      → a.returned ≡ true
      → (b.listening ≡ true) × ((b.signalled ≡ true) ⊎ (has_null Message b.wire ≡ true))
  returned-listening a b r on =
      let (h, k) = Reach-Both Message r in (h.heard (h.ended on), k.reached on)

  -- In every state that two ends reach, what waits in the queue of either one, followed by the arrays that
  -- are on their way to it, is all that the users of the other one have posted, in that order: none is
  -- lost to the handshake.
  pub queue-posted :
      (a b : End Message)
      → Reach Message a b
      → (a.queue ++ arrays Message a.wire ≡ b.posted)
        × (b.queue ++ arrays Message b.wire ≡ a.posted)
  queue-posted a b r = let (h, k) = Reach-Both Message r in (h.kept, k.kept)
