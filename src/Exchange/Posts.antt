-- ===== src/Exchange/Posts.antt =====
-- What a server posts (web-rpc/src/service.rs), as the dispatcher of the other end (web-rpc/src/lib.rs) reads
-- it.
use web_rpc.Prelude.{
  ℕ, ◌≡◌, refl, ap, Bool, false, none, some, List, [], ◌∷◌, ◌++◌, map, ok, All, All-append, inl,
  inr, Option-cases, ◌==◌, if◌then◌else◌, Text,
}
use web_rpc.Prelude.Dict.{lookup}
use web_rpc.Session.Formats.{Formats, response, stream_item, stream_end}
use web_rpc.Session.Message.{Item, Post, post_message, post_header, take_bytes}
use web_rpc.Session.State.{State, remove_stream_callback}
use web_rpc.Session.Dispatcher.{dispatch, dispatch_all, on_header, on_response, on_stream_item}
use web_rpc.Session.Streams.{
  Effect, push, stop, skip, delivery, header_effect, opened, effect_of, message_effect, before,
  stream_of,
}
use web_rpc.Service.Task.{
  Task, ExecuteResult, reply, stream_complete, StreamMessage, on_request, on_abort,
  on_stream_message, on_execution, forget, stream_post,
}
use web_rpc.Service.Steps.{
  World, Step, request, abort, posted, item, ended, Reach, here, next, start,
}
use web_rpc.Service.Steps
use web_rpc.Service.Streams.{streamed}

module _ (f : Formats) where
  -- The posts of a server: a response, or a message of a stream.
  pub data IsServed : Post f → Type 0 where
    answer :
        (n : ℕ) (r : f.Response) (xs ys : List (Item f))
        → IsServed (post_message f (response n) (f.write_response r) xs ys)
    streaming : (m : StreamMessage f) → IsServed (stream_post f m)

  -- What a message of a stream is to the stream of number `q`.
  abbrev pub sent_effect : ℕ → StreamMessage f → Effect f
  sent_effect q (n, some (r, xs, ys)) = if n == q then push (r, xs) else skip
  sent_effect q (n, none) = if n == q then stop else skip

  -- The items of number `q` among the messages of streams, up to its end marker, and whether that is there.
  unfoldable pub sent_to : ℕ → List (StreamMessage f) → List (f.Response × List (Item f)) × Bool
  sent_to q [] = ([], false)
  sent_to q (m ∷ ms) = before f (sent_effect q m) (sent_to q ms)

  stream_post-effect :
      (q : ℕ) (m : StreamMessage f) → message_effect f q (stream_post f m).message ≡ sent_effect q m
  unfolding message_effect effect_of opened header_effect delivery take_bytes stream_post
      post_message post_header
  stream_post-effect q (n, some (r, xs, ys)) =
      rw (f.read-write_header (stream_item n)) (rw (f.read-write_response r) refl)
  stream_post-effect q (n, none) = rw (f.read-write_header (stream_end n))

  answer-effect :
      (q n : ℕ) (b : Text) (xs ys : List (Item f))
      → message_effect f q (post_message f (response n) b xs ys).message ≡ skip
  unfolding message_effect effect_of opened header_effect take_bytes post_message
  answer-effect q n b xs ys = rw (f.read-write_header (response n))

  pub stream_of-sent :
      (q : ℕ) (ms : List (StreamMessage f))
      → stream_of f q (map (λ p. p.message) (map (stream_post f) ms)) ≡ sent_to q ms
  unfolding stream_of sent_to
  stream_of-sent q [] = refl
  stream_of-sent q (m ∷ ms) = rw (stream_post-effect q m, stream_of-sent q ms)

  streamed-answer :
      (n : ℕ) (b : Text) (xs ys : List (Item f)) (ps : List (Post f))
      → streamed f (post_message f (response n) b xs ys ∷ ps) ≡ streamed f ps
  unfolding streamed post_message
  streamed-answer n b xs ys ps = rw (f.read-write_header (response n))

  streamed-streaming :
      (m : StreamMessage f) (ps : List (Post f))
      → streamed f (stream_post f m ∷ ps) ≡ stream_post f m ∷ streamed f ps
  unfolding streamed stream_post post_message post_header
  streamed-streaming (n, some (r, xs, ys)) ps = rw (f.read-write_header (stream_item n))
  streamed-streaming (n, none) ps = rw (f.read-write_header (stream_end n))

  -- A stream is the same with or without the responses among the posts.
  pub stream_of-streamed :
      (q : ℕ) (ps : List (Post f))
      → All IsServed ps
      → stream_of f q (map (λ p. p.message) ps)
        ≡ stream_of f q (map (λ p. p.message) (streamed f ps))
  unfolding stream_of
  stream_of-streamed q [] h = unfold streamed in refl
  stream_of-streamed q (p ∷ ps) (answer n r xs ys, hs) =
      rw
        (
          answer-effect q n (f.write_response r) xs ys,
          streamed-answer n (f.write_response r) xs ys ps,
        )
        (stream_of-streamed q ps hs)
  stream_of-streamed q (p ∷ ps) (streaming m, hs) =
      rw (streamed-streaming m ps)
        (ap (before f (message_effect f q (stream_post f m).message)) (stream_of-streamed q ps hs))

  pub IsServed-dispatch :
      {p : Post f} → IsServed p → (s : State f) → (t : State f) × (dispatch f p.message s ≡ ok t)
  unfolding dispatch on_header on_response on_stream_item take_bytes stream_post post_message
      post_header
  IsServed-dispatch (answer n r xs ys) s =
      rw (f.read-write_header (response n)) (rw (f.read-write_response r) (_, refl))
  IsServed-dispatch (streaming (n, some (r, xs, ys))) s =
      rw (f.read-write_header (stream_item n)) (rw (f.read-write_response r) (_, refl))
  IsServed-dispatch (streaming (n, none)) s =
      (remove_stream_callback f n s, rw (f.read-write_header (stream_end n)))

  -- A dispatcher takes whatever a server posts.
  pub IsServed-dispatch_all :
      (ps : List (Post f)) (s : State f)
      → All IsServed ps
      → (t : State f) × (dispatch_all f (map (λ p. p.message) ps) s ≡ ok t)
  unfolding dispatch_all
  IsServed-dispatch_all [] s h = (s, refl)
  IsServed-dispatch_all (p ∷ ps) s (h, hs) =
      let (t, e) = IsServed-dispatch h s in
      let (v, e') = IsServed-dispatch_all ps t hs in (v, rw e e')

  on_stream_message-IsServed :
      (m : StreamMessage f) (t : Task f)
      → All IsServed t.outbox
      → All IsServed (on_stream_message f m t).outbox
  unfolding on_stream_message forget
  on_stream_message-IsServed (n, some o) t h =
      All-append IsServed t.outbox (stream_post f (n, some o) ∷ []) h (streaming (n, some o), tt)
  on_stream_message-IsServed (n, none) t h =
      All-append IsServed t.outbox (stream_post f (n, none) ∷ []) h (streaming (n, none), tt)

  on_execution-IsServed :
      (q : ℕ) (r : ExecuteResult f) (t : Task f)
      → All IsServed t.outbox
      → All IsServed (on_execution f q r t).outbox
  unfolding on_execution forget
  on_execution-IsServed q stream_complete t h = h
  on_execution-IsServed q (reply none) t h = elim (Option-cases (lookup q t.running)) [
    | inl e ↦ rw e h
    | inr (a, e) ↦ rw e h
  ]
  on_execution-IsServed q (reply (some (r, xs, ys))) t h =
      elim (Option-cases (lookup q t.running)) [
        | inl e ↦ rw e h
        | inr (a, e) ↦
            let p : Post f = post_message f (response q) (f.write_response r) xs ys in
            rw e (All-append IsServed t.outbox (p ∷ []) h (answer q r xs ys, tt))
      ]

  pub Step-IsServed :
      {w u : World f} → Step f w u → All IsServed w.task.outbox → All IsServed u.task.outbox
  unfolding on_request on_abort forget
  Step-IsServed (request r body) h = h
  Step-IsServed (abort q) h = h
  Step-IsServed {w} (posted m ms e) h =
      on_stream_message-IsServed m (record (w.task) { stream_queue = ms }) h
  Step-IsServed (item xs ys e is_async o p b g) h = h
  Step-IsServed (Steps.opened xs ys e p b) h = h
  Step-IsServed {w} (ended xs ys e last result p ends) h =
      on_execution-IsServed e.number result
        (record (w.task) { executions = xs ++ ys; stream_queue = w.task.stream_queue ++ last }) h

  pub Reach-IsServed : {w : World f} → Reach f (start f) w → All IsServed w.task.outbox
  Reach-IsServed here = tt
  Reach-IsServed (next r s) = Step-IsServed s (Reach-IsServed r)
