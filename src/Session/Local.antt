-- ===== src/Session/Local.antt =====
-- What the steps of a client and of the dispatcher leave alone (web-rpc/src/client.rs, lib.rs).
use web_rpc.Session.Formats.{Formats}
use web_rpc.Session.Client.{send}
use web_rpc.Session.Polls.{poll_dispatcher-kept, poll_request-kept, poll_stream-kept}
use web_rpc.Session.Frame.{
  Frame, Frame-trans, Frame-IsKept, send-Frame, request_handle-Frame, stream_handle-Frame,
  fire_request-Frame, fire_stream-Frame,
}
use web_rpc.Session.World.{
  World, handle, Step, called, notified, streamed, arrived, dropped, polled, finished,
  stream_polled, stream_fired, served, taken, stopped, IsLocal,
}

module _ (f : Formats) where
  pub IsLocal-Frame : {w u : World f} (p : Step f w u) → IsLocal f p → Frame f w.state u.state
  IsLocal-Frame {w} (called r xs ys) l =
      Frame-trans f (send-Frame f r xs ys w.state)
        (request_handle-Frame f (send f r xs ys w.state).0 (send f r xs ys w.state).1)
  IsLocal-Frame {w} (notified r xs ys) l = send-Frame f r xs ys w.state
  IsLocal-Frame {w} (streamed r xs ys) l =
      Frame-trans f (send-Frame f r xs ys w.state)
        (stream_handle-Frame f (send f r xs ys w.state).0 (send f r xs ys w.state).1)
  IsLocal-Frame (arrived m) l = absurd l
  IsLocal-Frame {w} (dropped q c e) l = fire_request-Frame f (handle f q c) w.state
  IsLocal-Frame {w} (polled decode q c h s e p) l =
      poll_request-kept f (Frame-IsKept f) decode (handle f q c) w.state p
  IsLocal-Frame {w} (finished decode q c t h s e p) l =
      poll_request-kept f (Frame-IsKept f) decode (handle f q c) w.state p
  IsLocal-Frame {w} (stream_polled decode h x p) l =
      poll_stream-kept f (Frame-IsKept f) decode h w.state p
  IsLocal-Frame {w} (stream_fired h) l = fire_stream-Frame f h w.state
  IsLocal-Frame {w} (served x p) l = poll_dispatcher-kept f (Frame-IsKept f) w.state p
  IsLocal-Frame (taken rs aborts posts) l = absurd l
  IsLocal-Frame stopped l = absurd l
