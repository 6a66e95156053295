-- ===== src/Service/Answers.antt =====
-- How often the server answers a request.
use web_rpc.Prelude.{
  ℕ, ◌+◌, ◌≤◌, ◌≡◌, Option, none, some, List, [], ◌∷◌, ◌++◌, arith, ◌==◌, if◌then◌else◌, Text,
}
use web_rpc.Prelude.Dict.{Dict, lookup, remove, lookup-remove, lookup-insert}
use web_rpc.Session.Formats.{
  Formats, MessageHeader, request, response, abort, stream_item, stream_end,
}
use web_rpc.Session.Message.{Item, buffer, value, Message, Post, post_header, post_message}
use web_rpc.Service.Task.{
  Task, Request, ExecuteResult, reply, stream_complete, StreamMessage, Body, on_request, on_abort,
  on_stream_message, on_execution, forget, stream_post,
}
use web_rpc.Service.Steps.{
  World, Step, request, abort, posted, item, opened, ended, Reach, here, next, start,
}

module _ (f : Formats) where
  abbrev first_header : Message f → Option MessageHeader
  first_header [] = none
  first_header (buffer b ∷ rest) = f.read_header b
  first_header (value v ∷ rest) = none

  -- The header that the other end reads off a post.
  abbrev pub header_of : Post f → Option MessageHeader
  header_of p = first_header p.message

  abbrev is_answer : ℕ → Option MessageHeader → ℕ
  is_answer q (some (response n)) = if n == q then 1 else 0
  is_answer q _ = 0

  -- How many posts answer request `q`.
  unfoldable pub answers : ℕ → List (Post f) → ℕ
  answers q [] = 0
  answers q (p ∷ ps) = is_answer q (header_of p) + answers q ps

  answers-append :
      (q : ℕ) (ps : List (Post f)) (p : Post f)
      → answers q (ps ++ p ∷ []) ≡ answers q ps + is_answer q (header_of p)
  unfolding answers
  answers-append q [] p = omega arith
  answers-append q (r ∷ ps) p = omega (arith, answers-append q ps p)

  abbrev running_count : Option ℕ → ℕ
  running_count none = 0
  running_count (some a) = 1

  running_count-le : (o : Option ℕ) → running_count o ≤ 1
  running_count-le none = omega arith
  running_count-le (some a) = omega arith

  -- Answers given, and one more for a request that may still be answered.
  abbrev pub due : ℕ → Task f → ℕ
  due q t = answers q t.outbox + running_count (lookup q t.running)

  header_of-response :
      (q n : ℕ) (b : Text) (xs ys : List (Item f))
      → is_answer q (header_of (post_message f (response n) b xs ys)) ≡ (if n == q then 1 else 0)
  unfolding post_message
  header_of-response q n b xs ys = rw (f.read-write_header (response n))

  header_of-stream_post :
      (q : ℕ) (m : StreamMessage f) → is_answer q (header_of (stream_post f m)) ≡ 0
  unfolding stream_post post_message post_header
  header_of-stream_post q (n, some (r, xs, ys)) = rw (f.read-write_header (stream_item n))
  header_of-stream_post q (n, none) = rw (f.read-write_header (stream_end n))

  running-remove :
      (n q : ℕ) (d : Dict ℕ)
      → running_count (lookup q (remove n d)) ≡ (if n == q then 0 else running_count (lookup q d))
  running-remove n q d = ground (arith, lookup-remove n q d)

  forget-due : (q n : ℕ) (t : Task f) → due q (forget f n t) ≤ due q t
  unfolding forget
  forget-due q n t = ground (arith, running-remove n q t.running)

  on_stream_message-due :
      (q : ℕ) (m : StreamMessage f) (t : Task f)
      → (due q (on_stream_message f m t) ≤ due q t)
        × (answers q t.outbox ≤ answers q (on_stream_message f m t).outbox)
  unfolding on_stream_message forget
  on_stream_message-due q (n, some o) t = ground (
    arith,
    answers-append q t.outbox (stream_post f (n, some o)),
    header_of-stream_post q (n, some o),
  )
  on_stream_message-due q (n, none) t = ground (
    arith,
    answers-append q t.outbox (stream_post f (n, none)),
    header_of-stream_post q (n, none),
    running-remove n q t.running,
  )

  on_execution-due :
      (q n : ℕ) (r : ExecuteResult f) (t : Task f)
      → (due q (on_execution f n r t) ≤ due q t)
        × (answers q t.outbox ≤ answers q (on_execution f n r t).outbox)
  unfolding on_execution forget
  on_execution-due q n stream_complete t = (omega arith, omega arith)
  on_execution-due q n (reply none) t = ground (arith, running-remove n q t.running)
  on_execution-due q n (reply (some (r, xs, ys))) t =
      let p : Post f = post_message f (response n) (f.write_response r) xs ys in
      ground (
        arith,
        answers-append q t.outbox p,
        header_of-response q n (f.write_response r) xs ys,
        running-remove n q t.running,
        running_count-le (lookup q t.running),
      )

  on_request-due :
      (q : ℕ) (r : Request f) (body : Body f) (t : Task f)
      → due q (on_request f r body t) ≤ due q t + (if r.0 == q then 1 else 0)
  unfolding on_request
  on_request-due q (n, payload, xs) body t =
      ground (arith, lookup-insert n q t.next_abort t.running)

  -- What every step and history keeps: an answer is paid for by a request.
  pub record Growth (q : ℕ) (w u : World f) : Type 0 where
    pub paid : due q u.task + w.received q ≤ due q w.task + u.received q
    pub kept : answers q w.task.outbox ≤ answers q u.task.outbox
    pub counted : w.received q ≤ u.received q

  Step-Growth : {w u : World f} (q : ℕ) → Step f w u → Growth q w u
  unfolding on_abort
  Step-Growth {w} q (request r body) = record {
    paid = omega (arith, on_request-due q r body w.task);
    kept = unfold on_request in omega arith;
    counted = omega arith;
  }
  Step-Growth {w} q (abort n) = record {
    paid = omega (arith, forget-due q n w.task);
    kept = unfold forget in omega arith;
    counted = omega arith;
  }
  Step-Growth {w} q (posted m ms e) =
      let d = on_stream_message-due q m (record (w.task) { stream_queue = ms }) in
      record { paid = omega (arith, d.0); kept = omega (arith, d.1); counted = omega arith }
  Step-Growth q (item xs ys e is_async o p b g) = omega arith
  Step-Growth q (opened xs ys e p b) = omega arith
  Step-Growth {w} q (ended xs ys e last result p ends) =
      let t : Task f = record (w.task) {
        executions = xs ++ ys;
        stream_queue = w.task.stream_queue ++ last;
      } in
      let d = on_execution-due q e.number result t in
      record { paid = omega (arith, d.0); kept = omega (arith, d.1); counted = omega arith }

  Reach-Growth : {w u : World f} (q : ℕ) → Reach f w u → Growth q w u
  Reach-Growth q here = omega arith
  Reach-Growth q (next r s) =
      let a = Reach-Growth q r in
      let b = Step-Growth q s in
      record {
        paid = omega (arith, a.paid, b.paid);
        kept = omega (arith, a.kept, b.kept);
        counted = omega (arith, a.counted, b.counted);
      }

  -- Over any history of a server, whatever the implementation does and in whatever order the ready
  -- branches are taken, a number is answered at most as often as it was requested.
  pub answers-le-received :
      (w : World f) (q : ℕ) → Reach f (start f) w → answers q w.task.outbox ≤ w.received q
  unfolding answers lookup
  answers-le-received w q r = omega (arith, (Reach-Growth q r).paid)

  -- After an abort a request is not answered any more: however the server goes on, as long as no
  -- request of the same number comes in, the number of answers to it stays what it was.
  pub answers-after-abort :
      (w u : World f) (q : ℕ)
      → Reach f (record w { task = on_abort f q w.task }) u
      → u.received q ≡ w.received q
      → answers q u.task.outbox ≡ answers q w.task.outbox
  unfolding on_abort forget
  answers-after-abort w u q r e =
      let g = Reach-Growth q r in
      ground (
        arith,
        g.paid,
        g.kept,
        running-remove q q w.task.running,
        running_count-le (lookup q u.task.running),
      )
