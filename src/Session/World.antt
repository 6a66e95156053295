-- ===== src/Session/World.antt =====
-- An interface over time: calls and drops of its client, polls of futures, streams and server, the
-- drop of the server, and messages that arrive, in any order.
use web_rpc.Prelude.{
  ℕ, ◌≡◌, ◌≢◌, Bool, true, false, Option, none, some, List, [], ◌∷◌, ◌++◌, Outcome, ok, Text,
}
use web_rpc.Session.Formats.{Formats}
use web_rpc.Session.Message.{Item, Message, Post}
use web_rpc.Session.State.{State, Delivery, closed, update}
use web_rpc.Session.Dispatcher.{poll_dispatcher}
use web_rpc.Session.Client.{
  Handle, Poll, ready, pending, send, request_handle, stream_handle, fire_request, fire_stream,
  poll_request, poll_stream,
}

module _ (f : Formats) where
  -- The state of `assemble` before anything was called.
  abbrev pub initial : Bool → State f
  initial has_server = record {
    sequence = 0;
    callbacks = [];
    stream_callbacks = [];
    oneshots = λ _. closed;
    queues = λ _. record { items = []; is_open = false };
    next_channel = 0;
    inbox = [];
    inbox_open = true;
    requests = [];
    aborts = [];
    server_alive = has_server;
    outbox = [];
  }

  -- The drop of a `Server`, and with it of the receivers of requests and aborts.
  unfoldable pub drop_server : State f → State f
  drop_server s = record s { requests = []; aborts = []; server_alive = false }

  -- The shared state, and for each channel the number of the request whose future is held on it and not yet
  -- ready.
  pub record World : Type 0 where
    pub state : State f
    pub live : ℕ → Option ℕ

  abbrev pub handle : ℕ → ℕ → Handle
  handle q c = record { number = q; channel = c; active = true }

  -- A method with a response: `send`, then `State::request`.
  abbrev pub call : f.Request → List (Item f) → List (Item f) → State f → Handle × State f
  call r xs ys s = request_handle f (send f r xs ys s).0 (send f r xs ys s).1

  abbrev pub call_stream : f.Request → List (Item f) → List (Item f) → State f → Handle × State f
  call_stream r xs ys s = stream_handle f (send f r xs ys s).0 (send f r xs ys s).1

  pub data Step (w : World) : World → Type 1 where
    -- A call; its number may be that of a live request, once the counter has wrapped around.
    called :
        (r : f.Request) (xs ys : List (Item f))
        → Step w (record {
          state = (call r xs ys w.state).1;
          live = update w.live (call r xs ys w.state).0.channel (some w.state.sequence);
        })
    notified :
        (r : f.Request) (xs ys : List (Item f))
        → Step w (record w { state = (send f r xs ys w.state).1 })
    streamed :
        (r : f.Request) (xs ys : List (Item f))
        → Step w (record w { state = (call_stream r xs ys w.state).1 })
    arrived :
        (m : Message f)
        → Step w (record w { state = record (w.state) { inbox = w.state.inbox ++ m ∷ [] } })
    -- The future of a live request is dropped.
    dropped :
        (q c : ℕ)
        → w.live c ≡ some q
        → Step w (record {
          state = (fire_request f (handle q c) w.state).1;
          live = update w.live c none;
        })
    -- The future of a live request is polled, and is pending or ready.
    polled :
        {T : Type 0} (decode : Delivery f → Outcome T) (q c : ℕ) (h : Handle) (s : State f)
        → w.live c ≡ some q
        → poll_request f decode (handle q c) w.state ≡ ok (pending, h, s)
        → Step w (record w { state = s })
    finished :
        {T : Type 0} (decode : Delivery f → Outcome T) (q c : ℕ) (t : T) (h : Handle) (s : State f)
        → w.live c ≡ some q
        → poll_request f decode (handle q c) w.state ≡ ok (ready t, h, s)
        → Step w (record { state = s; live = update w.live c none })
    stream_polled :
        {T : Type 0} (decode : Delivery f → Outcome T) (h : Handle)
        (x : Poll (Option T) × Handle × State f)
        → poll_stream f decode h w.state ≡ ok x
        → Step w (record w { state = x.2 })
    stream_fired : (h : Handle) → Step w (record w { state = (fire_stream f h w.state).1 })
    -- The server polls the dispatcher, takes what is queued for it, and posts.
    served :
        (x : State f × Bool) → poll_dispatcher f w.state ≡ ok x → Step w (record w { state = x.0 })
    taken :
        (rs : List (ℕ × Text × Message f)) (aborts : List ℕ) (posts : List (Post f))
        → Step w (record w {
          state = record (w.state) {
            requests = rs;
            aborts = aborts;
            outbox = w.state.outbox ++ posts;
          };
        })
    -- The server is dropped.
    stopped : Step w (record w { state = drop_server w.state })

  -- A step of the session in which nothing comes from the port, nothing goes to the server and the server stays.
  abbrev pub IsLocal : {w u : World} → Step w u → Type 0
  IsLocal (arrived m) = ⊥
  IsLocal (taken rs aborts posts) = ⊥
  IsLocal stopped = ⊥
  IsLocal _ = Unit

  pub data Reach (w : World) : World → Type 1 where
    here : Reach w w
    next : {u v : World} → Reach w u → Step u v → Reach w v

  -- A step that does not give the number of a live request to another one.
  abbrev pub IsUnshared : {w u : World} → Step w u → Type 0
  IsUnshared {w} (called r xs ys) = (c : ℕ) → w.live c ≢ some w.state.sequence
  IsUnshared _ = Unit

  -- A history in which no call takes the number of a request that is live then.
  abbrev pub Unshared : {w u : World} → Reach w u → Type 0
  Unshared here = Unit
  Unshared (next r p) = Unshared r × IsUnshared p
