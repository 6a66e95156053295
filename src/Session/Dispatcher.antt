-- ===== src/Session/Dispatcher.antt =====
-- web-rpc/src/lib.rs, the dispatcher of `assemble`: inbound messages become responses, stream items,
-- requests and aborts.
use web_rpc.Prelude.{
  ℕ, Bool, not, Option, none, some, List, [], ◌∷◌, ◌++◌, Outcome, ok, panic, ◌>>=◌, if◌then◌else◌,
}
use web_rpc.Prelude.Dict.{lookup, remove}
use web_rpc.Session.Formats.{
  Formats, MessageHeader, request, abort, response, stream_item, stream_end,
}
use web_rpc.Session.Message.{Message, take_bytes}
use web_rpc.Session.State.{
  State, Delivery, Oneshot, Queue, delivered, update, remove_stream_callback,
}

module _ (f : Formats) where
  open f use {read_header, read_response}

  abbrev pub unwrap {ℓ} : {A : Type ℓ} → Option A → Outcome A
  unwrap none = panic
  unwrap (some a) = ok a

  -- What is sent goes into the sender's channel; without a sender it is dropped.
  abbrev pub deliver : Option ℕ → Delivery f → (ℕ → Oneshot f) → ℕ → Oneshot f
  deliver none d cells = cells
  deliver (some c) d cells = update cells c (delivered d)

  abbrev pub enqueue : Option ℕ → Delivery f → (ℕ → Queue f) → ℕ → Queue f
  enqueue none d cells = cells
  enqueue (some c) d cells = update cells c (record (cells c) { items = (cells c).items ++ d ∷ [] })

  unfoldable pub on_request : ℕ → Message f → State f → Outcome (State f)
  on_request seq message s = do
    (payload, rest) ← take_bytes f message
    if s.server_alive
        then ok (record s { requests = s.requests ++ (seq, payload, rest) ∷ [] })
        else panic

  unfoldable pub on_abort : ℕ → State f → State f
  on_abort seq s = if s.server_alive then record s { aborts = s.aborts ++ seq ∷ [] } else s

  unfoldable pub on_response : ℕ → Message f → State f → Outcome (State f)
  on_response seq message s = do
    (bytes, rest) ← take_bytes f message
    r ← unwrap (read_response bytes)
    ok (record s {
      callbacks = remove seq s.callbacks;
      oneshots = deliver (lookup seq s.callbacks) (r, rest) s.oneshots;
    })

  unfoldable pub on_stream_item : ℕ → Message f → State f → Outcome (State f)
  on_stream_item seq message s = do
    (bytes, rest) ← take_bytes f message
    r ← unwrap (read_response bytes)
    ok (record s { queues = enqueue (lookup seq s.stream_callbacks) (r, rest) s.queues })

  unfoldable pub on_header : MessageHeader → Message f → State f → Outcome (State f)
  on_header (request seq) message s = on_request seq message s
  on_header (abort seq) message s = ok (on_abort seq s)
  on_header (response seq) message s = on_response seq message s
  on_header (stream_item seq) message s = on_stream_item seq message s
  on_header (stream_end seq) message s = ok (remove_stream_callback f seq s)

  -- One message.
  unfoldable pub dispatch : Message f → State f → Outcome (State f)
  dispatch message s = do
    (bytes, rest) ← take_bytes f message
    header ← unwrap (read_header bytes)
    on_header header rest s

  unfoldable pub dispatch_all : List (Message f) → State f → Outcome (State f)
  dispatch_all [] s = ok s
  dispatch_all (m ∷ ms) s = dispatch m s >>= dispatch_all ms

  -- A poll of the dispatcher takes every message that has arrived. It completes, `true`, when the
  -- listener that feeds it is gone.
  unfoldable pub poll_dispatcher : State f → Outcome (State f × Bool)
  poll_dispatcher s = do
    s' ← dispatch_all s.inbox (record s { inbox = [] })
    ok (s', not s.inbox_open)
