-- ===== src/Generated/Streams.antt =====
-- A remote stream as a whole: a streaming method of the generated client (web-rpc-macro/src/lib.rs), the generated
-- server that executes it, and everything in between.
use web_rpc.Prelude.{ℕ, ◌≡◌, sym, ap, ◌∙◌, Bool, true, List, [], ◌∷◌, map, ok, suc, length}
use web_rpc.Session.State.{State, Delivery}
use web_rpc.Session.Dispatcher.{dispatch_all}
use web_rpc.Session.Client.{Handle}
use web_rpc.Session.World
use web_rpc.Session.World.{call_stream}
use web_rpc.Session.Live
use web_rpc.Session.Drain.{Decodes, none_left, one_more, Decodes-length, received}
use web_rpc.Service.Steps
use web_rpc.Exchange.Posts.{sent_to}
use web_rpc.Exchange.Streaming.{messages, call_stream-received}
use web_rpc.Wire.Platform.{Platform}
use web_rpc.Wire.Value
use web_rpc.Wire.Value.{Route}
use web_rpc.Wire.Params.{Param, Arguments}
use web_rpc.Generated.Enums.{stream, Signature, Nth}
use web_rpc.Generated.Client.{client_request}
use web_rpc.Generated.Server.{Implementation, method_of, streamed, outgoing, answer, Outgoing}
use web_rpc.Generated.Calls.{execute-client_request}
use web_rpc.Generated.Whole.{
  Codec, formats, to_item, executed, unpack_delivery, posted, executed-client_request,
  unpack_delivery-outgoing,
}

module _ (p : Platform) {ms : List (Signature p)} (c : Codec p ms) where
  -- A streaming method of the generated client.
  abbrev pub remote_stream :
      {m : Signature p}
      → Nth p m ms
      → Arguments p m.params
      → State (formats p c)
      → Handle × State (formats p c)
  remote_stream n vs s =
      let sent = client_request p n vs in
      call_stream (formats p c) sent.0 (map (to_item p c) sent.1.post)
        (map (to_item p c) sent.1.transfer) s

  -- What the dispatcher of the client makes of an item that the server sends.
  abbrev pub arriving : Outgoing p ms → Delivery (formats p c)
  arriving o = let sent = posted p c o in (sent.0, sent.1)

  Decodes-outgoing :
      {m : Signature p} (n : Nth p m ms) (r : Route p) (items : List (Value.Value p r))
      → Decodes
          (formats p c)
          (unpack_delivery p c n r)
          (map arriving (map (outgoing p n r) items))
          items
  Decodes-outgoing n r [] = none_left
  Decodes-outgoing n r (v ∷ vs) =
      one_more (unpack_delivery-outgoing p c n r v) (Decodes-outgoing n r vs)

  -- A streaming method of the generated client is called, with arguments, after any history of the client's
  -- interface. The generated server executes the request by calling the same method of the implementation on
  -- the same arguments, and encodes each item that it yields. Take any history of a server that has sent just
  -- those, in order, and then an end for the number of the call, and has posted all that it sent. Then the
  -- client's dispatcher takes all that the server has posted, and the stream yields, poll by poll, the
  -- items of the implementation, and ends.
  pub remote_stream-yields :
      {ps : List (Param p)} {r : Route p} {is_async : Bool}
      (n : Nth p (record { params = ps; output = stream r; is_async = is_async }) ms)
      (fs : Implementation p ms) (vs : Arguments p ps) (has_server : Bool)
      (w : World.World (formats p c)) (v : Steps.World (formats p c))
      → World.Reach (formats p c) (Live.start (formats p c) has_server) w
      → Steps.Reach (formats p c) (Steps.start (formats p c)) v
      → v.task.stream_queue ≡ []
      → sent_to (formats p c) w.state.sequence v.sent
        ≡ (map arriving (map (outgoing p n r) (method_of p n fs vs)), true)
      → let request = client_request p n vs in
        let a = remote_stream n vs w.state in
        let items = method_of p n fs vs in
        (executed p c fs (c.write_request request.0) (map (to_item p c) request.1.post)
          ≡ ok (streamed (map (outgoing p n r) items)))
        × (u : State (formats p c)) × (dispatch_all (formats p c) (messages (formats p c) v) a.1
            ≡ ok u)
        × (received (formats p c) (unpack_delivery p c n r) (suc (length items)) a.0 u
            ≡ ok (items, true))
  unfolding answer
  remote_stream-yields {r} n fs vs has_server w v before reached empty sent =
      let request = client_request p n vs in
      let items = method_of p n fs vs in
      let decoded = Decodes-outgoing n r items in
      let (u, taken, got) =
        call_stream-received (formats p c) (unpack_delivery p c n r) items has_server w request.0
          (map (to_item p c) request.1.post) (map (to_item p c) request.1.transfer) v before reached
          empty (ap (λ x. x.1) sent) (rw sent decoded) in
      (
        executed-client_request p c n fs vs ∙ execute-client_request p n fs vs,
        u,
        taken,
        ap
              (λ (k : ℕ).
                received (formats p c) (unpack_delivery p c n r) (suc k)
                  (remote_stream n vs w.state).0 u)
              (sym (Decodes-length (formats p c) decoded) ∙ ap (λ x. length x.0) (sym sent))
            ∙ got,
      )
