-- ===== src/Service/Streams.antt =====
-- The stream messages that the server posts.
use web_rpc.Prelude.{
  ℕ, ◌≡◌, refl, sym, ap, ◌∙◌, Option, none, some, List, [], ◌∷◌, ◌++◌, map, arith, append_assoc,
  append-nil, Text,
}
use mathlib.Core.List.{map-append}
use web_rpc.Session.Formats.{
  Formats, MessageHeader, request, response, abort, stream_item, stream_end,
}
use web_rpc.Session.Message.{Item, Post, post_message, post_header}
use web_rpc.Service.Task.{
  Task, ExecuteResult, reply, stream_complete, StreamMessage, on_request, on_abort,
  on_stream_message, on_execution, forget, stream_post,
}
use web_rpc.Service.Steps.{
  World, Step, request, abort, posted, item, opened, ended, Reach, here, next, start,
}
use web_rpc.Service.Answers.{header_of}

module _ (f : Formats) where
  abbrev keep_streamed : Option MessageHeader → Post f → List (Post f) → List (Post f)
  keep_streamed (some (stream_item n)) p ps = p ∷ ps
  keep_streamed (some (stream_end n)) p ps = p ∷ ps
  keep_streamed _ p ps = ps

  -- The posts that carry an item or the end of a stream.
  unfoldable pub streamed : List (Post f) → List (Post f)
  streamed [] = []
  streamed (p ∷ ps) = keep_streamed (header_of f p) p (streamed ps)

  streamed-append : (ps rs : List (Post f)) → streamed (ps ++ rs) ≡ streamed ps ++ streamed rs
  unfolding streamed
  streamed-append [] rs = refl
  streamed-append (p ∷ ps) rs = ground (arith, streamed-append ps rs)

  streamed-stream_post :
      (m : StreamMessage f) → streamed (stream_post f m ∷ []) ≡ stream_post f m ∷ []
  unfolding streamed stream_post post_message post_header
  streamed-stream_post (n, some (r, xs, ys)) = rw (f.read-write_header (stream_item n))
  streamed-stream_post (n, none) = rw (f.read-write_header (stream_end n))

  streamed-response :
      (n : ℕ) (b : Text) (xs ys : List (Item f))
      → streamed (post_message f (response n) b xs ys ∷ []) ≡ []
  unfolding streamed post_message
  streamed-response n b xs ys = rw (f.read-write_header (response n))

  on_stream_message-streamed :
      (m : StreamMessage f) (t : Task f)
      → streamed (on_stream_message f m t).outbox ≡ streamed t.outbox ++ stream_post f m ∷ []
  unfolding on_stream_message forget
  on_stream_message-streamed (n, some o) t = rw (streamed-append, streamed-stream_post (n, some o))
  on_stream_message-streamed (n, none) t = rw (streamed-append, streamed-stream_post (n, none))

  pub on_execution-streamed :
      (n : ℕ) (r : ExecuteResult f) (t : Task f)
      → (streamed (on_execution f n r t).outbox ≡ streamed t.outbox)
        × ((on_execution f n r t).stream_queue ≡ t.stream_queue)
        × ((on_execution f n r t).executions ≡ t.executions)
  unfolding on_execution forget
  on_execution-streamed n stream_complete t = (refl, refl, refl)
  on_execution-streamed n (reply none) t = ground arith
  on_execution-streamed n (reply (some (r, xs, ys))) t =
      let p : Post f = post_message f (response n) (f.write_response r) xs ys in
      ground (
        arith,
        streamed-append t.outbox (p ∷ []),
        streamed-response n (f.write_response r) xs ys,
        append-nil (streamed t.outbox),
      )

  -- Posted and still queued together are all that was sent, in order.
  abbrev pub InOrder : World f → Type 0
  InOrder w =
      streamed w.task.outbox ++ map (stream_post f) w.task.stream_queue ≡ map (stream_post f) w.sent

  queue_in-order :
      (w : World f) (rest : List (Post f)) (last : List (StreamMessage f))
      → InOrder w
      → rest ≡ streamed w.task.outbox
      → rest ++ map (stream_post f) (w.task.stream_queue ++ last)
        ≡ map (stream_post f) (w.sent ++ last)
  queue_in-order w rest last h e =
      rw
        (
          e,
          map-append (stream_post f) w.task.stream_queue last,
          map-append (stream_post f) w.sent last,
          ← h,
        )
        (sym (
          append_assoc (streamed w.task.outbox) (map (stream_post f) w.task.stream_queue)
            (map (stream_post f) last)))

  posted_in-order :
      (w : World f) (m : StreamMessage f) (ms : List (StreamMessage f))
      → w.task.stream_queue ≡ m ∷ ms
      → InOrder w
      → streamed (on_stream_message f m (record (w.task) { stream_queue = ms })).outbox
          ++ map (stream_post f) ms
        ≡ map (stream_post f) w.sent
  posted_in-order w m ms e h =
      rw (on_stream_message-streamed m (record (w.task) { stream_queue = ms }), ← h)
        (append_assoc (streamed w.task.outbox) (stream_post f m ∷ []) (map (stream_post f) ms)
          ∙ ap (λ q. streamed w.task.outbox ++ map (stream_post f) q) (sym e))

  pub on_stream_message-queue :
      (m : StreamMessage f) (t : Task f)
      → ((on_stream_message f m t).stream_queue ≡ t.stream_queue)
        × ((on_stream_message f m t).executions ≡ t.executions)
  unfolding on_stream_message forget
  on_stream_message-queue (n, some o) t = (refl, refl)
  on_stream_message-queue (n, none) t = (refl, refl)

  Step-InOrder : {w u : World f} → Step f w u → InOrder w → InOrder u
  unfolding on_request on_abort forget
  Step-InOrder (request r body) h = h
  Step-InOrder (abort q) h = h
  Step-InOrder {w} (posted m ms e) h =
      rw (on_stream_message-queue m (record (w.task) { stream_queue = ms })).0
        (posted_in-order w m ms e h)
  Step-InOrder {w} (item xs ys e is_async o p b g) h =
      queue_in-order w (streamed w.task.outbox) ((e.number, some o) ∷ []) h refl
  Step-InOrder (opened xs ys e p b) h = h
  Step-InOrder {w} (ended xs ys e last result p ends) h =
      let t : Task f = record (w.task) {
        executions = xs ++ ys;
        stream_queue = w.task.stream_queue ++ last;
      } in
      let x = on_execution-streamed e.number result t in
      rw x.1 (queue_in-order w (streamed (on_execution f e.number result t).outbox) last h x.0)

  -- Over any history of a server, the items and end markers that it has posted, followed by those that
  -- wait in the stream channel, are all that its executions sent there, each once and in that order.
  pub streamed_in-order :
      (w : World f)
      → Reach f (start f) w
      → streamed w.task.outbox ++ map (stream_post f) w.task.stream_queue
        ≡ map (stream_post f) w.sent
  streamed_in-order w = go
    where
      base : InOrder (start f)
      base = unfold streamed in refl

      go : {u : World f} → Reach f (start f) u → InOrder u
      go here = base
      go (next r s) = Step-InOrder s (go r)
