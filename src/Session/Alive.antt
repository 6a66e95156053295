-- ===== src/Session/Alive.antt =====
-- An interface with no server (web-rpc/src/lib.rs): what becomes of messages for it.
use web_rpc.Prelude.{ℕ, ◌≡◌, refl, sym, ◌∙◌, false, List, Text, ok, panic}
use web_rpc.Session.Formats.{Formats, request, abort}
use web_rpc.Session.Message.{Item, post_message, post_header, take_bytes}
use web_rpc.Session.State.{State}
use web_rpc.Session.Dispatcher.{dispatch, on_header, on_request, on_abort}
use web_rpc.Session.World.{World, drop_server, Step, arrived, taken, stopped, Reach, here, next}
use web_rpc.Session.Local.{IsLocal-Frame}
use web_rpc.Session.Build.{Interface, new, with_client, build_client, built}

module _ (f : Formats) where
  -- A server that is gone does not come back.
  Step-stopped :
      {w u : World f} → Step f w u → w.state.server_alive ≡ false → u.state.server_alive ≡ false
  unfolding drop_server
  Step-stopped (arrived m) off = off
  Step-stopped (taken rs aborts posts) off = off
  Step-stopped stopped off = refl
  Step-stopped p off = sym (IsLocal-Frame f p tt).same_server ∙ off

  Reach-stopped :
      {w u : World f} → Reach f w u → w.state.server_alive ≡ false → u.state.server_alive ≡ false
  Reach-stopped here off = off
  Reach-stopped (next r p) off = Step-stopped p (Reach-stopped r off)

  dispatch-stopped :
      (q : ℕ) (payload : Text) (xs ys : List (Item f)) (s : State f)
      → s.server_alive ≡ false
      → dispatch f (post_message f (request q) payload xs ys).message s ≡ panic
  unfolding dispatch on_header on_request take_bytes post_message
  dispatch-stopped q payload xs ys s off = rw (f.read-write_header (request q)) (rw off refl)

  dispatch-aborted : (q : ℕ) (s : State f) → s.server_alive ≡ false → on_abort f q s ≡ s
  unfolding on_abort
  dispatch-aborted q s off = rw off refl

  -- In every world that an interface built for a client alone reaches, a request from the other end makes the
  -- dispatcher panic, and an abort is dropped.
  pub build_client-requests :
      (T : Type 0) (i : Interface f) (w : World f) (q : ℕ) (payload : Text) (xs ys : List (Item f))
      → Reach f (built f (build_client f {T = T} (with_client f (new f i)))) w
      → (dispatch f (post_message f (request q) payload xs ys).message w.state ≡ panic)
        × (dispatch f (post_header f (abort q)).message w.state ≡ ok w.state)
  unfolding build_client drop_server dispatch on_header take_bytes post_header
  build_client-requests T i w q payload xs ys r =
      let off = Reach-stopped r refl in
      (
        dispatch-stopped q payload xs ys w.state off,
        rw (f.read-write_header (abort q)) (rw (dispatch-aborted q w.state off) refl),
      )
