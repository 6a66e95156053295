-- ===== src/Session/Client.antt =====
-- web-rpc/src/client.rs: requests, streams, and the futures that a client hands out.
use web_rpc.Prelude.{
  ℕ, ◌+◌, ◌%◌, ◌^◌, Bool, true, false, Option, none, some, List, [], ◌∷◌, ◌++◌, Outcome, ok, panic,
  ◌>>=◌, if◌then◌else◌,
}
use web_rpc.Session.Formats.{Formats, request, abort}
use web_rpc.Session.Message.{Item, post_message, post_header}
use web_rpc.Session.State.{
  State, Delivery, Oneshot, waiting, delivered, closed, update, insert_callback, remove_callback,
  insert_stream_callback, remove_stream_callback,
}
use web_rpc.Session.Dispatcher.{poll_dispatcher}

-- What a poll gives.
pub data Poll {ℓ} (A : Type ℓ) : Type ℓ where
  ready : A → Poll A
  pending : Poll A

-- `u32::wrapping_add(1)`.
abbrev pub wrapping_suc : ℕ → ℕ
wrapping_suc n = (n + 1) % 2 ^ 32

-- `RequestFuture`, `StreamReceiver` and the `AbortOnDrop` inside: the sequence number of the
-- request, the channel that answers it, and whether a drop still sends an abort.
pub record Handle : Type 0 where
  pub number : ℕ
  pub channel : ℕ
  pub active : Bool

abbrev pub disarm : Handle → Handle
disarm h = record h { active = false }

module _ (f : Formats) where
  open f use {Request, Response, write_request}

  -- `State::send`.
  unfoldable pub send : Request → List (Item f) → List (Item f) → State f → ℕ × State f
  send r post_args transfer_args s = (
    s.sequence,
    record s {
      sequence = wrapping_suc s.sequence;
      outbox =
          s.outbox
          ++ post_message f (request s.sequence) (write_request r) post_args transfer_args ∷ [];
    },
  )

  -- `State::request`: a new oneshot channel, whose sender goes into the map.
  unfoldable pub request_handle : ℕ → State f → Handle × State f
  request_handle seq s =
      let s' = insert_callback f seq s.next_channel s in
      (
        record { number = seq; channel = s.next_channel; active = true },
        record s' {
          oneshots = update s'.oneshots s.next_channel waiting;
          next_channel = s.next_channel + 1;
        },
      )

  -- `State::stream`.
  unfoldable pub stream_handle : ℕ → State f → Handle × State f
  stream_handle seq s =
      let s' = insert_stream_callback f seq s.next_channel s in
      (
        record { number = seq; channel = s.next_channel; active = true },
        record s' {
          queues = update s'.queues s.next_channel (record { items = []; is_open = true });
          next_channel = s.next_channel + 1;
        },
      )

  abbrev post_abort : ℕ → State f → State f
  post_abort seq s = record s { outbox = s.outbox ++ post_header f (abort seq) ∷ [] }

  -- `AbortOnDrop::fire` with the closure of a request. The drop of the future runs it.
  unfoldable pub fire_request : Handle → State f → Handle × State f
  fire_request h s =
      if h.active then (disarm h, post_abort h.number (remove_callback f h.number s)) else (h, s)

  -- The same for a stream: `StreamReceiver::close` and the drop of the receiver.
  unfoldable pub fire_stream : Handle → State f → Handle × State f
  fire_stream h s =
      if h.active
      then (disarm h, post_abort h.number (remove_stream_callback f h.number s))
      else (h, s)

  -- The dispatcher must not have completed while somebody waits for it.
  abbrev pub wait {ℓ} : {A : Type ℓ} → Handle → State f × Bool → Outcome (Poll A × Handle × State f)
  wait h (s, true) = panic
  wait h (s, false) = ok (pending, h, s)

  abbrev pub keep_items : ℕ → List (Delivery f) → State f → State f
  keep_items c ds s = record s { queues = update s.queues c (record (s.queues c) { items = ds }) }

  module _ {ℓ} {T : Type ℓ} (decode : Delivery f → Outcome T) where
    -- What a request's future does at the state of its channel.
    unfoldable pub poll_cell : Oneshot f → Handle → State f → Outcome (Poll T × Handle × State f)
    poll_cell waiting h s = poll_dispatcher f s >>= wait h
    poll_cell (delivered d) h s = decode d >>= λ t. ok (ready t, disarm h, s)
    poll_cell closed h s = panic

    -- `RequestFuture::poll`: the channel first, then the dispatcher.
    unfoldable pub poll_request : Handle → State f → Outcome (Poll T × Handle × State f)
    poll_request h s = poll_cell (s.oneshots h.channel) h s

    -- A buffered item first; then the end, if the sender is gone; then the dispatcher.
    unfoldable pub poll_items :
        List (Delivery f) → Bool → Handle → State f → Outcome (Poll (Option T) × Handle × State f)
    poll_items (d ∷ ds) is_open h s =
        decode d >>= λ t. ok (ready (some t), h, keep_items h.channel ds s)
    poll_items [] true h s = poll_dispatcher f s >>= wait h
    poll_items [] false h s = ok (ready none, disarm h, s)

    -- `StreamReceiver::poll_next`.
    unfoldable pub poll_stream : Handle → State f → Outcome (Poll (Option T) × Handle × State f)
    poll_stream h s = let q = s.queues h.channel in poll_items q.items q.is_open h s
