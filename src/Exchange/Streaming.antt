-- ===== src/Exchange/Streaming.antt =====
-- One streaming call from end to end: web-rpc/src/client.rs at one end, any history of web-rpc/src/service.rs
-- at the other.
use web_rpc.Prelude.{
  ℕ, suc, ◌≡◌, refl, sym, ap, ◌∙◌, Bool, true, false, some, List, [], ◌++◌, map, Outcome, ok,
  append-nil, length, if◌then◌else◌, arith,
}
use web_rpc.Prelude.Dict.{lookup, lookup-insert}
use web_rpc.Session.Formats.{Formats}
use web_rpc.Session.Message.{Item, Message, Post}
use web_rpc.Session.State.{State, Delivery, insert_stream_callback, update_self}
use web_rpc.Session.Dispatcher.{dispatch_all}
use web_rpc.Session.Client.{send, stream_handle}
use web_rpc.Session.World
use web_rpc.Session.World.{call_stream}
use web_rpc.Session.Live
use web_rpc.Session.Streams.{stream_of}
use web_rpc.Session.StreamOrder.{extend}
use web_rpc.Session.StreamHistory.{dispatch_all-reached}
use web_rpc.Session.Drain.{Decodes, received, received_closed}
use web_rpc.Service.Task.{stream_post}
use web_rpc.Service.Steps
use web_rpc.Service.Streams.{streamed, streamed_in-order}
use web_rpc.Exchange.Posts.{
  sent_to, stream_of-sent, stream_of-streamed, IsServed-dispatch_all, Reach-IsServed,
}

module _ (f : Formats) where
  -- The messages of all that a server has posted, in order.
  abbrev pub messages : Steps.World f → List (Message f)
  messages w = map (λ (p : Post f). p.message) w.task.outbox

  call_stream-open :
      (r : f.Request) (xs ys : List (Item f)) (s : State f)
      → let a = call_stream f r xs ys s in
        (a.0.number ≡ s.sequence)
        × (lookup a.0.number a.1.stream_callbacks ≡ some a.0.channel)
        × (a.1.queues a.0.channel ≡ record { items = []; is_open = true })
  unfolding send stream_handle insert_stream_callback
  call_stream-open r xs ys s = (
    refl,
    ground (arith, lookup-insert s.sequence s.sequence s.next_channel s.stream_callbacks),
    update_self (insert_stream_callback f s.sequence s.next_channel (send f r xs ys s).1).queues
        s.next_channel (record { items = []; is_open = true }),
  )

  -- When its stream channel is empty, a server has posted for each number all that was sent there.
  stream_of-messages :
      (q : ℕ) (w : Steps.World f)
      → Steps.Reach f (Steps.start f) w
      → w.task.stream_queue ≡ []
      → stream_of f q (messages w) ≡ sent_to f q w.sent
  stream_of-messages q w reached empty =
      let all : streamed f w.task.outbox ≡ map (stream_post f) w.sent =
        sym (append-nil (streamed f w.task.outbox))
        ∙ ap (λ ms. streamed f w.task.outbox ++ map (stream_post f) ms) (sym empty)
        ∙ streamed_in-order f w reached in
      stream_of-streamed f q w.task.outbox (Reach-IsServed f reached)
      ∙ ap (λ ps. stream_of f q (map (λ (p : Post f). p.message) ps)) all
      ∙ stream_of-sent f q w.sent

  -- A streaming call from end to end, whatever else client and server do. After any history of the client's
  -- interface, a method that streams is called; after any history of the server, all that it sent to
  -- its stream channel is posted, and that has the end of the number of the call; the items that were sent
  -- for the number up to the first end are decoded without a panic. Then the client's dispatcher takes all
  -- that the server has posted, and the stream, polled once for each item and once more, yields just those
  -- items, in order, and ends.
  pub call_stream-received {ℓ} :
      {T : Type ℓ} (decode : Delivery f → Outcome T) (ts : List T) (has_server : Bool)
      (c : World.World f) (r : f.Request) (xs ys : List (Item f)) (w : Steps.World f)
      → World.Reach f (Live.start f has_server) c
      → Steps.Reach f (Steps.start f) w
      → w.task.stream_queue ≡ []
      → (sent_to f c.state.sequence w.sent).1 ≡ true
      → Decodes f decode (sent_to f c.state.sequence w.sent).0 ts
      → let a = call_stream f r xs ys c.state in
        let items = (sent_to f c.state.sequence w.sent).0 in
        (v : State f) × (dispatch_all f (messages w) a.1 ≡ ok v)
        × (received f decode (suc (length items)) a.0 v ≡ ok (ts, true))
  call_stream-received decode ts has_server c r xs ys w from reached empty over all =
      let a = call_stream f r xs ys c.state in
      let (number, held, fresh) = call_stream-open r xs ys c.state in
      let (v, taken) = IsServed-dispatch_all f w.task.outbox a.1 (Reach-IsServed f reached) in
      let got : v.queues a.0.channel
          ≡ extend f (stream_of f a.0.number (messages w)) (a.1.queues a.0.channel) =
        dispatch_all-reached f has_server (record c { state = a.1 }) (messages w) a.0.number
          a.0.channel (World.next from (World.streamed r xs ys)) held taken in
      let whole : v.queues a.0.channel
          ≡ record { items = (sent_to f c.state.sequence w.sent).0; is_open = false } =
        got
        ∙ ap (λ n. extend f (stream_of f n (messages w)) (a.1.queues a.0.channel)) number
        ∙ ap (λ x. extend f x (a.1.queues a.0.channel))
            (stream_of-messages c.state.sequence w reached empty)
        ∙ ap (extend f (sent_to f c.state.sequence w.sent)) fresh
        ∙ ap
            (λ (b : Bool). record {
              items = (sent_to f c.state.sequence w.sent).0;
              is_open = if b then false else true;
            })
            over in
      (v, taken, received_closed f decode (sent_to f c.state.sequence w.sent).0 ts a.0 v all whole)
