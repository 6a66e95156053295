-- ===== src/Service/EndMarkers.antt =====
-- Every streaming request is ended by one marker.
use web_rpc.Prelude.{
  ℕ, ◌+◌, ◌≡◌, refl, ap, Bool, true, none, some, List, [], ◌∷◌, ◌++◌, arith, ◌==◌, if◌then◌else◌,
}
use web_rpc.Session.Formats.{Formats}
use web_rpc.Service.Task.{
  Task, ExecuteResult, StreamMessage, Execution, on_request, on_abort, forget,
}
use web_rpc.Service.Execute.{Ends, notified, returned, cancelled, forwarded, never_opened}
use web_rpc.Service.Steps.{
  World, Step, request, abort, posted, item, opened, ended, Reach, here, next, start, stream_count,
}
use web_rpc.Service.Streams.{on_execution-streamed, on_stream_message-queue}

module _ (f : Formats) where
  abbrev is_end : ℕ → StreamMessage f → ℕ
  is_end q (n, some o) = 0
  is_end q (n, none) = if n == q then 1 else 0

  -- The end markers of number `q` among stream messages.
  unfoldable pub end_markers : ℕ → List (StreamMessage f) → ℕ
  end_markers q [] = 0
  end_markers q (m ∷ ms) = is_end q m + end_markers q ms

  abbrev is_stream_of : ℕ → Execution f → ℕ
  is_stream_of q e = if e.number == q then stream_count f e.body else 0

  -- The executions that stream for number `q`.
  unfoldable pub streaming : ℕ → List (Execution f) → ℕ
  streaming q [] = 0
  streaming q (e ∷ es) = is_stream_of q e + streaming q es

  end_markers-append :
      (q : ℕ) (ms ns : List (StreamMessage f))
      → end_markers q (ms ++ ns) ≡ end_markers q ms + end_markers q ns
  unfolding end_markers
  end_markers-append q [] ns = omega arith
  end_markers-append q (m ∷ ms) ns = omega (arith, end_markers-append q ms ns)

  streaming-append :
      (q : ℕ) (xs ys : List (Execution f))
      → streaming q (xs ++ ys) ≡ streaming q xs + streaming q ys
  unfolding streaming
  streaming-append q [] ys = omega arith
  streaming-append q (x ∷ xs) ys = omega (arith, streaming-append q xs ys)

  -- Taking an execution out, or another in its place.
  streaming-middle :
      (q : ℕ) (xs ys : List (Execution f)) (e : Execution f)
      → streaming q (xs ++ e ∷ ys) ≡ is_stream_of q e + streaming q (xs ++ ys)
  unfolding streaming
  streaming-middle q xs ys e =
      omega (arith, streaming-append q xs (e ∷ ys), streaming-append q xs ys)

  -- The last words of an execution: an end marker if it streams, and nothing else.
  Ends-markers :
      (q : ℕ) {e : Execution f} {fired : Bool} {last : List (StreamMessage f)} {r : ExecuteResult f}
      → Ends f e fired last r
      → end_markers q last ≡ is_stream_of q e
  unfolding end_markers
  Ends-markers q (notified is_async b) = ground arith
  Ends-markers q (returned is_async o b) = ground arith
  Ends-markers q (cancelled b g) = ground arith
  Ends-markers q (forwarded is_async b g) = ground arith
  Ends-markers q (never_opened b g n) = ground arith

  abbrev Balanced : ℕ → World f → Type 0
  Balanced q w = end_markers q w.sent + streaming q w.task.executions ≡ w.streams q

  Step-Balanced : {w u : World f} (q : ℕ) → Step f w u → Balanced q w → Balanced q u
  unfolding on_request on_abort forget
  Step-Balanced q (request r body) h = unfold streaming in omega arith
  Step-Balanced q (abort n) h = h
  Step-Balanced {w} q (posted m ms e) h =
      rw (on_stream_message-queue f m (record (w.task) { stream_queue = ms })).1 h
  Step-Balanced {w} q (item xs ys e is_async o p b g) h =
      unfold end_markers in omega (arith, end_markers-append q w.sent ((e.number, some o) ∷ []))
  Step-Balanced {w} q (opened xs ys e p b) h =
      let here_now = streaming-middle q xs ys (record e { forwarding = true }) in
      omega (arith, here_now, streaming-middle q xs ys e, ap (streaming q) p)
  Step-Balanced {w} q (ended xs ys e last result p ends) h =
      let t : Task f = record (w.task) {
        executions = xs ++ ys;
        stream_queue = w.task.stream_queue ++ last;
      } in
      rw (on_execution-streamed f e.number result t).2 (
        omega (
          arith,
          end_markers-append q w.sent last,
          Ends-markers q ends,
          streaming-middle q xs ys e,
          ap (streaming q) p,
        ))

  -- Over any history of a server, each streaming request of a number has had exactly one end marker, or
  -- is still being executed and has had none, whether it ran out, was aborted, or was aborted before
  -- its items were there.
  pub end_markers-streaming :
      (w : World f) (q : ℕ)
      → Reach f (start f) w
      → end_markers q w.sent + streaming q w.task.executions ≡ w.streams q
  end_markers-streaming w q = go
    where
      base : Balanced q (start f)
      base = unfold end_markers streaming in refl

      go : {u : World f} → Reach f (start f) u → Balanced q u
      go here = base
      go (next r s) = Step-Balanced q s (go r)
