-- ===== src/System/Sent.antt =====
-- What an end posts (web-rpc/src/client.rs, service.rs), and that the dispatcher of the other end
-- (web-rpc/src/lib.rs) takes it.
use web_rpc.Prelude.{◌≡◌, refl, sym, ◌∙◌, true, not, List, [], ◌∷◌, All, ok}
use web_rpc.Session.Formats.{Formats, request, abort}
use web_rpc.Session.Message.{Message, Post, post_message, post_header, take_bytes}
use web_rpc.Session.State.{State}
use web_rpc.Session.Dispatcher.{
  dispatch, dispatch_all, poll_dispatcher, on_header, on_request, on_abort,
}
use web_rpc.Session.Frame.{IsAsked, asked, aborted, Frame-IsKept}
use web_rpc.Exchange.Posts.{IsServed, IsServed-dispatch}

module _ (f : Formats) where
  -- A message that some end has posted.
  pub data IsSent : Message f → Type 0 where
    by_client : {x : Post f} → IsAsked f x → IsSent x.message
    by_server : {x : Post f} → IsServed f x → IsSent x.message

  IsAsked-dispatch :
      {x : Post f}
      → IsAsked f x
      → (s : State f) → s.server_alive ≡ true
      → (t : State f) × (dispatch f x.message s ≡ ok t)
  unfolding dispatch on_header on_request on_abort take_bytes post_message post_header
  IsAsked-dispatch (asked n payload xs ys) s alive =
      rw (f.read-write_header (request n)) (rw alive (_, refl))
  IsAsked-dispatch (aborted n) s alive = rw (f.read-write_header (abort n)) (_, refl)

  IsSent-dispatch :
      {m : Message f}
      → IsSent m
      → (s : State f) → s.server_alive ≡ true
      → (t : State f) × (dispatch f m s ≡ ok t)
  IsSent-dispatch (by_client h) s alive = IsAsked-dispatch h s alive
  IsSent-dispatch (by_server h) s alive = IsServed-dispatch f h s

  IsSent-dispatch_all :
      (ms : List (Message f)) (s : State f)
      → All IsSent ms
      → s.server_alive ≡ true
      → (t : State f) × (dispatch_all f ms s ≡ ok t)
  unfolding dispatch_all
  IsSent-dispatch_all [] s all alive = (s, refl)
  IsSent-dispatch_all (m ∷ ms) s (h, hs) alive =
      let (t, e) = IsSent-dispatch h s alive in
      let still = sym ((Frame-IsKept f).dispatched m s e).same_server ∙ alive in
      let (v, e') = IsSent-dispatch_all ms t hs still in (v, rw e e')

  -- Where all that has arrived was posted by some end, a poll of the dispatcher goes through.
  pub poll_dispatcher-IsSent :
      (s : State f)
      → All IsSent s.inbox
      → s.server_alive ≡ true
      → (t : State f) × (dispatch_all f s.inbox (record s { inbox = [] }) ≡ ok t)
        × (poll_dispatcher f s ≡ ok (t, not s.inbox_open))
  unfolding poll_dispatcher
  poll_dispatcher-IsSent s all alive =
      let (t, e) = IsSent-dispatch_all s.inbox (record s { inbox = [] }) all alive in (t, e, rw e)
