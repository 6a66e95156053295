-- ===== src/Session/Tests.antt =====
-- Concrete formats, states and histories: instances for the properties of a running interface.
use web_rpc.Prelude.{
  ◌⊎◌, ℕ, zero, suc, ◌≡◌, ◌≢◌, refl, arith, true, Option, none, some, List, [], ◌∷◌, ◌++◌, map,
  Outcome, ok, panic, ◌>>=◌, length, Text,
}
use web_rpc.Prelude.Dict.{lookup, insert}
use web_rpc.Session.Formats.{
  Formats, MessageHeader, request, abort, response, stream_item, stream_end,
}
use web_rpc.Session.Message.{Item, Message, post_message, post_header, take_bytes}
use web_rpc.Session.State.{
  State, Delivery, waiting, delivered, update, insert_callback, insert_stream_callback,
  remove_stream_callback,
}
use web_rpc.Session.Dispatcher.{dispatch, dispatch_all, on_header, on_stream_item}
use web_rpc.Session.Client.{
  Handle, ready, disarm, send, request_handle, stream_handle, fire_request, fire_stream,
  poll_request,
}
use web_rpc.Session.World.{
  World, initial, handle, call, call_stream, Reach, here, next, called, streamed, Unshared,
}
use web_rpc.Session.Live.{start}
use web_rpc.Session.Answered.{reply-live}
use web_rpc.Session.Numbers.{Distinct, send_all, send_all-Distinct}
use web_rpc.Session.Replies.{reply, reply-reaches, reply-after-fire}
use web_rpc.Session.Streams.{stream_of}
use web_rpc.Session.StreamOrder.{extend}
use web_rpc.Session.StreamHistory.{dispatch_all-reached}
use web_rpc.Session.Drain.{received, close-drains}

abbrev pub tag_bytes : MessageHeader → Text
tag_bytes (request q) = 0 ∷ q ∷ []
tag_bytes (abort q) = 1 ∷ q ∷ []
tag_bytes (response q) = 2 ∷ q ∷ []
tag_bytes (stream_item q) = 3 ∷ q ∷ []
tag_bytes (stream_end q) = 4 ∷ q ∷ []

abbrev read_tag : ℕ → ℕ → Option MessageHeader
read_tag zero q = some (request q)
read_tag (suc zero) q = some (abort q)
read_tag (suc (suc zero)) q = some (response q)
read_tag (suc (suc (suc zero))) q = some (stream_item q)
read_tag (suc (suc (suc (suc zero)))) q = some (stream_end q)
read_tag _ q = none

abbrev pub read_tag_bytes : Text → Option MessageHeader
read_tag_bytes (tag ∷ q ∷ []) = read_tag tag q
read_tag_bytes _ = none

abbrev first_byte : Text → Option ℕ
first_byte (b ∷ []) = some b
first_byte _ = none

pub tag_bytes-read : (h : MessageHeader) → read_tag_bytes (tag_bytes h) ≡ some h
tag_bytes-read (request q) = refl
tag_bytes-read (abort q) = refl
tag_bytes-read (response q) = refl
tag_bytes-read (stream_item q) = refl
tag_bytes-read (stream_end q) = refl

-- Requests, responses and Javascript values are numbers.
abbrev pub tagged : Formats
tagged = record {
  Js = ℕ;
  Request = ℕ;
  Response = ℕ;
  write_header = tag_bytes;
  read_header = read_tag_bytes;
  write_request = λ n. n ∷ [];
  write_response = λ n. n ∷ [];
  read_response = first_byte;
  read-write_header = tag_bytes-read;
  read-write_response = λ n. refl;
}

abbrev pub decode_first : Delivery tagged → Outcome ℕ
decode_first d = ok d.0

-- One request is live.
abbrev pub asked : World tagged
asked = record {
  state = (call tagged 5 [] [] (initial tagged true)).1;
  live = update (start tagged true).live 0 (some 0);
}

pub asked-Reach : Reach tagged (start tagged true) asked
unfolding send request_handle insert_callback lookup insert
asked-Reach = next here (called 5 [] [])

pub asked-Unshared : Unshared tagged asked-Reach
unfolding asked-Reach
asked-Unshared = (tt, λ c p. cc)

-- A counter that is about to wrap around.
abbrev wrapping : State tagged
wrapping = record (initial tagged true) { sequence = 4294967295 }

abbrev two_calls : List (ℕ × List (Item tagged) × List (Item tagged))
two_calls = (5, [], []) ∷ (6, [], []) ∷ []

two_calls-numbers : (send_all tagged two_calls wrapping).0 ≡ 4294967295 ∷ 0 ∷ []
unfolding send_all send
two_calls-numbers = refl

send_all-Distinct_example : Distinct (send_all tagged two_calls wrapping).0
send_all-Distinct_example = send_all-Distinct tagged two_calls wrapping (omega arith) (omega arith)

-- The future of the live request, and the reply to it.
abbrev future : Handle
future = handle tagged 0 0

abbrev answer : Message tagged
answer = reply tagged 0 8 (Item.value 3 ∷ []) []

reply-reaches_example :
    (t : State tagged) × (dispatch tagged answer asked.state ≡ ok t)
    × (t.oneshots 0 ≡ delivered (8, Item.value 3 ∷ []))
    × (poll_request tagged decode_first future t
        ≡ (decode_first (8, Item.value 3 ∷ []) >>= λ x. ok (ready x, disarm future, t)))
    × ((c : ℕ) → c ≢ 0 → t.oneshots c ≡ asked.state.oneshots c)
    × (lookup 0 t.callbacks ≡ none)
    × ((n : ℕ) → n ≢ 0 → lookup n t.callbacks ≡ lookup n asked.state.callbacks)
    × (t ≡ record (asked.state) { callbacks = t.callbacks; oneshots = t.oneshots })
reply-reaches_example =
    reply-reaches tagged decode_first future 8 (Item.value 3 ∷ []) [] asked.state
      (unfold send request_handle insert_callback lookup insert in refl)

reply-after-fire_example :
    let dropped = (fire_request tagged future asked.state).1 in
    (t : State tagged) × (dispatch tagged answer dropped ≡ ok t)
    × (t.oneshots ≡ dropped.oneshots)
    × (t.queues ≡ dropped.queues)
reply-after-fire_example = reply-after-fire tagged future 8 (Item.value 3 ∷ []) [] asked.state refl

-- A stream with number 0 and channel 0, two items and the end of it, and an item of another stream.
abbrev streaming : State tagged
streaming = (call_stream tagged 5 [] [] (initial tagged true)).1

abbrev stream_messages : List (Message tagged)
stream_messages =
    (post_message tagged (stream_item 0) (8 ∷ []) [] []).message
    ∷ (post_message tagged (stream_item 1) (7 ∷ []) [] []).message
    ∷ (post_message tagged (stream_item 0) (9 ∷ []) [] []).message
    ∷ (post_header tagged (stream_end 0)).message
    ∷ []

abbrev unwrap_or {ℓ} : {A : Type ℓ} → A → Outcome A → A
unwrap_or a (ok b) = b
unwrap_or a panic = a

abbrev after_stream : State tagged
after_stream = unwrap_or streaming (dispatch_all tagged stream_messages streaming)

streaming-here : lookup 0 streaming.stream_callbacks ≡ some 0
unfolding send stream_handle insert_stream_callback lookup insert
streaming-here = refl

streaming-Reach : Reach tagged (start tagged true) (record { state = streaming; live = λ j. none })
streaming-Reach = next here (streamed 5 [] [])

streaming-dispatched : dispatch_all tagged stream_messages streaming ≡ ok after_stream
unfolding dispatch_all dispatch on_header on_stream_item take_bytes post_message post_header
    remove_stream_callback
streaming-dispatched = refl

dispatch_all-reached_example :
    after_stream.queues 0 ≡ extend tagged (stream_of tagged 0 stream_messages) (streaming.queues 0)
dispatch_all-reached_example =
    dispatch_all-reached tagged true (record { state = streaming; live = λ j. none })
      stream_messages 0 0 streaming-Reach streaming-here streaming-dispatched

close-drains_example :
    let over = fire_stream tagged future streaming in
    (received tagged decode_first (suc (length (streaming.queues 0).items)) over.0 over.1
      ≡ ok (map (λ (d : Delivery tagged). d.0) (streaming.queues 0).items, true))
    × (over.1.outbox ≡ streaming.outbox ++ post_header tagged (abort 0) ∷ [])
    × (lookup 0 over.1.stream_callbacks ≡ none)
    × (fire_stream tagged over.0 over.1 ≡ over)
close-drains_example =
    close-drains tagged (λ (d : Delivery tagged). d.0) future streaming refl streaming-here

reply-live_example :
    ((d : Delivery tagged) × (asked.state.oneshots 0 ≡ delivered d)
      × (poll_request tagged decode_first future asked.state
          ≡ (decode_first d >>= λ x. ok (ready x, disarm future, asked.state))))
    ⊎ ((asked.state.oneshots 0 ≡ waiting)
        × (v : State tagged) × (dispatch tagged answer asked.state ≡ ok v)
        × (v.oneshots 0 ≡ delivered (8, Item.value 3 ∷ []))
        × (poll_request tagged decode_first future v
            ≡ (decode_first (8, Item.value 3 ∷ []) >>= λ x. ok (ready x, disarm future, v))))
reply-live_example =
    reply-live tagged decode_first true asked 0 0 8 (Item.value 3 ∷ []) [] asked-Reach
      asked-Unshared (unfold send request_handle insert_callback lookup insert in refl)
