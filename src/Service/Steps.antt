-- ===== src/Service/Steps.antt =====
-- The server over time: requests and aborts that come in, executions that go on and end, and stream
-- messages that are posted, in any order that `select!` may take.
use web_rpc.Prelude.{ℕ, ◌+◌, ◌≡◌, Bool, true, false, some, List, [], ◌∷◌, ◌++◌, ◌==◌, if◌then◌else◌}
use web_rpc.Session.Formats.{Formats}
use web_rpc.Service.Task.{
  Task, Request, Outgoing, ExecuteResult, StreamMessage, Body, Execution, stream, on_request,
  on_abort, on_stream_message, on_execution,
}
use web_rpc.Service.Execute.{Ends}

module _ (f : Formats) where
  -- The task, and what has come in: the requests of each number, the streaming ones among them, and
  -- all that was ever put on the stream channel.
  pub record World : Type 0 where
    pub task : Task f
    pub received : ℕ → ℕ
    pub streams : ℕ → ℕ
    pub sent : List (StreamMessage f)

  abbrev pub stream_count : Body f → ℕ
  stream_count (stream is_async) = 1
  stream_count _ = 0

  abbrev bump : (ℕ → ℕ) → ℕ → ℕ → ℕ → ℕ
  bump g q n j = (if q == j then n else 0) + g j

  abbrev pub requested : Request f → Body f → World → World
  requested r body w = record {
    task = on_request f r body w.task;
    received = bump w.received r.0 1;
    streams = bump w.streams r.0 (stream_count body);
    sent = w.sent;
  }

  -- The execution is taken out, and its last words go to the stream channel.
  abbrev pub end_execution :
      ℕ → List (Execution f) → List (StreamMessage f) → ExecuteResult f → World → World
  end_execution q rest last result w =
      let t : Task f = record (w.task) {
        executions = rest;
        stream_queue = w.task.stream_queue ++ last;
      } in
      record w { task = on_execution f q result t; sent = w.sent ++ last }

  pub data Step (w : World) : World → Type 0 where
    request : (r : Request f) (body : Body f) → Step w (requested r body w)
    abort : (q : ℕ) → Step w (record w { task = on_abort f q w.task })
    posted :
        (m : StreamMessage f) (ms : List (StreamMessage f))
        → w.task.stream_queue ≡ m ∷ ms
        → Step w (record w { task = on_stream_message f m (record (w.task) { stream_queue = ms }) })
    -- `unbounded_send` of an item, while items are forwarded.
    item :
        (xs ys : List (Execution f)) (e : Execution f) (is_async : Bool) (o : Outgoing f)
        → w.task.executions ≡ xs ++ e ∷ ys
        → e.body ≡ stream is_async
        → e.forwarding ≡ true
        → Step w (record w {
          task = record (w.task) { stream_queue = w.task.stream_queue ++ (e.number, some o) ∷ [] };
          sent = w.sent ++ (e.number, some o) ∷ [];
        })
    -- An `async` streaming method hands over its items.
    opened :
        (xs ys : List (Execution f)) (e : Execution f)
        → w.task.executions ≡ xs ++ e ∷ ys
        → e.body ≡ stream true
        → Step w (record w {
          task = record (w.task) { executions = xs ++ record e { forwarding = true } ∷ ys };
        })
    ended :
        (xs ys : List (Execution f)) (e : Execution f) (last : List (StreamMessage f))
        (result : ExecuteResult f)
        → w.task.executions ≡ xs ++ e ∷ ys
        → Ends f e (w.task.fired e.abort) last result
        → Step w (end_execution e.number (xs ++ ys) last result w)

  pub data Reach (w : World) : World → Type 0 where
    here : Reach w w
    next : {u v : World} → Reach w u → Step u v → Reach w v

  -- A task that has just started.
  abbrev pub start : World
  start = record {
    task = record {
      running = [];
      fired = λ _. false;
      next_abort = 0;
      executions = [];
      stream_queue = [];
      outbox = [];
    };
    received = λ _. 0;
    streams = λ _. 0;
    sent = [];
  }
