-- ===== src/Service/Task.antt =====
-- web-rpc/src/service.rs, `task`: one function for each arm of its `select!`.
use web_rpc.Prelude.{ℕ, ◌+◌, Text, Bool, true, false, Option, none, some, List, [], ◌∷◌, ◌++◌}
use web_rpc.Prelude.Dict.{Dict, lookup, insert, remove}
use web_rpc.Session.Formats.{Formats, response, stream_item, stream_end}
use web_rpc.Session.Message.{Item, Message, Post, post_header, post_message}
use web_rpc.Session.State.{update}

module _ (f : Formats) where
  -- A response with its Javascript values and its transfer list.
  abbrev pub Outgoing : Type 0
  Outgoing = f.Response × List (Item f) × List (Item f)

  pub data ExecuteResult : Type 0 where
    reply : Option Outgoing → ExecuteResult
    stream_complete : ExecuteResult

  -- An item of a stream, or its end.
  abbrev pub StreamMessage : Type 0
  StreamMessage = ℕ × Option Outgoing

  -- An inbound request: number, payload, and the Javascript values behind it.
  abbrev pub Request : Type 0
  Request = ℕ × Text × Message f

  -- The shape of the method that a request calls, and whether it is `async`.
  pub data Body : Type 0 where
    notify value stream : Bool → Body

  -- A future in `executions`: its request, its abort channel, and whether a streaming method has
  -- handed over its items and forwards them.
  pub record Execution : Type 0 where
    pub number : ℕ
    pub abort : ℕ
    pub body : Body
    pub forwarding : Bool

  -- `running` holds the sender of each abort channel; `fired` says of a channel that its sender has
  -- sent or was dropped, on which the receiver resolves.
  pub record Task : Type 0 where
    pub running : Dict ℕ
    pub fired : ℕ → Bool
    pub next_abort : ℕ
    pub executions : List Execution
    pub stream_queue : List StreamMessage
    pub outbox : List (Post f)

  abbrev fire : Option ℕ → (ℕ → Bool) → ℕ → Bool
  fire none cells = cells
  fire (some a) cells = update cells a true

  -- `running.remove`: the sender is used or dropped.
  unfoldable pub forget : ℕ → Task → Task
  forget q t = record t { running = remove q t.running; fired = fire (lookup q t.running) t.fired }

  abbrev is_streaming_sync : Body → Bool
  is_streaming_sync (stream is_async) = elim is_async [ true ↦ false | false ↦ true ]
  is_streaming_sync (notify is_async) = false
  is_streaming_sync (value is_async) = false

  -- A synchronous streaming method has its items at once.
  unfoldable pub on_request : Request → Body → Task → Task
  on_request (q, payload, js_args) body t = record t {
    running = insert q t.next_abort t.running;
    fired = update (fire (lookup q t.running) t.fired) t.next_abort false;
    next_abort = t.next_abort + 1;
    executions =
        record {
          number = q;
          abort = t.next_abort;
          body = body;
          forwarding = is_streaming_sync body;
        }
        ∷ t.executions;
  }

  unfoldable pub on_abort : ℕ → Task → Task
  unfolding forget
  on_abort q t = forget q t

  abbrev pub post : Post f → Task → Task
  post p t = record t { outbox = t.outbox ++ p ∷ [] }

  -- The post that a message of a stream becomes.
  unfoldable pub stream_post : StreamMessage → Post f
  stream_post (q, some (r, xs, ys)) = post_message f (stream_item q) (f.write_response r) xs ys
  stream_post (q, none) = post_header f (stream_end q)

  unfoldable pub on_stream_message : StreamMessage → Task → Task
  unfolding stream_post forget
  on_stream_message (q, some o) t = post (stream_post (q, some o)) t
  on_stream_message (q, none) t = post (stream_post (q, none)) (forget q t)

  abbrev post_reply : ℕ → Option Outgoing → Task → Task
  post_reply q none t = t
  post_reply q (some (r, xs, ys)) t =
      post (post_message f (response q) (f.write_response r) xs ys) t

  -- An aborted request has been forgotten, and its response is dropped with it.
  abbrev if_running : Option ℕ → Task → Task → Task
  if_running none forgotten t = t
  if_running (some a) forgotten t = forgotten

  unfoldable pub on_execution : ℕ → ExecuteResult → Task → Task
  unfolding forget
  on_execution q (reply o) t = if_running (lookup q t.running) (post_reply q o (forget q t)) t
  on_execution q stream_complete t = t
