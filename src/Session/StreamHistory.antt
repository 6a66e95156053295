-- ===== src/Session/StreamHistory.antt =====
-- The streams of an interface over any history.
use web_rpc.Prelude.{inl, inr, ◌⊎◌, ℕ, ◌<◌, ◌≡◌, Bool, some, List, ok, arith}
use web_rpc.Prelude.Dict.{lookup, insert, lookup-insert}
use web_rpc.Session.Formats.{Formats}
use web_rpc.Session.Message.{Message}
use web_rpc.Session.State.{State, insert_stream_callback}
use web_rpc.Session.Dispatcher.{dispatch_all}
use web_rpc.Session.Client.{send, stream_handle}
use web_rpc.Session.Polls.{poll_dispatcher-kept, poll_request-kept, poll_stream-kept}
use web_rpc.Session.Shrinks.{
  Shrinks-IsKept, Shrinks, Shrinks-trans, send-Shrinks, request_handle-Shrinks,
  fire_request-Shrinks, fire_stream-Shrinks,
}
use web_rpc.Session.Streams.{stream_of}
use web_rpc.Session.StreamOrder.{extend, dispatch_all-stream}
use web_rpc.Session.World.{
  World, handle, Step, called, notified, streamed, arrived, dropped, polled, finished,
  stream_polled, stream_fired, served, taken, stopped, drop_server, Reach, here, next,
}
use web_rpc.Session.Live.{start}

module _ (f : Formats) where
  -- The stream map holds the senders of pairwise different channels.
  pub record HasOwnChannels (s : State f) : Type 0 where
    pub fresh : (q c : ℕ) → lookup q s.stream_callbacks ≡ some c → c < s.next_channel
    pub unique :
        (q r c : ℕ)
        → lookup q s.stream_callbacks ≡ some c
        → lookup r s.stream_callbacks ≡ some c
        → q ≡ r

  Shrinks-HasOwnChannels : {s t : State f} → Shrinks f s t → HasOwnChannels s → HasOwnChannels t
  Shrinks-HasOwnChannels k v = record {
    fresh = λ q c h. omega (arith, v.fresh q c (k.kept q c h), k.grows);
    unique = λ q r c h g. v.unique q r c (k.kept q c h) (k.kept r c g);
  }

  -- An entry of the map after a stream is opened: the new one, or an old one.
  abbrev NewOrOld : ℕ → ℕ → ℕ → State f → Type 0
  NewOrOld q r c s = ((q ≡ r) × (c ≡ s.next_channel)) ⊎ (lookup r s.stream_callbacks ≡ some c)

  inserted :
      (q r c : ℕ) (s : State f)
      → lookup r (insert q s.next_channel s.stream_callbacks) ≡ some c
      → NewOrOld q r c s
  inserted q r c s h = ground (arith, lookup-insert q r s.next_channel s.stream_callbacks)

  stream_handle-HasOwnChannels :
      (q : ℕ) (s : State f) → HasOwnChannels s → HasOwnChannels (stream_handle f q s).1
  unfolding stream_handle insert_stream_callback
  stream_handle-HasOwnChannels q s v = record {
    fresh = λ r c h. elim (inserted q r c s h) [
      | inl new ↦ omega arith
      | inr old ↦ omega (arith, v.fresh r c old)
    ];
    unique = λ r₁ r₂ c h g. both r₁ r₂ c (inserted q r₁ c s h) (inserted q r₂ c s g);
  }
    where
      both : (r₁ r₂ c : ℕ) → NewOrOld q r₁ c s → NewOrOld q r₂ c s → r₁ ≡ r₂
      both r₁ r₂ c (inl x) (inl y) = omega arith
      both r₁ r₂ c (inl x) (inr y) = absurd (omega (arith, v.fresh r₂ c y))
      both r₁ r₂ c (inr x) (inl y) = absurd (omega (arith, v.fresh r₁ c x))
      both r₁ r₂ c (inr x) (inr y) = v.unique r₁ r₂ c x y

  Step-HasOwnChannels :
      {w u : World f} → Step f w u → HasOwnChannels w.state → HasOwnChannels u.state
  unfolding drop_server
  Step-HasOwnChannels {w} (called r xs ys) v =
      Shrinks-HasOwnChannels
        (Shrinks-trans f (send-Shrinks f r xs ys w.state)
          (request_handle-Shrinks f (send f r xs ys w.state).0 (send f r xs ys w.state).1))
        v
  Step-HasOwnChannels {w} (notified r xs ys) v =
      Shrinks-HasOwnChannels (send-Shrinks f r xs ys w.state) v
  Step-HasOwnChannels {w} (streamed r xs ys) v =
      stream_handle-HasOwnChannels _ _ (Shrinks-HasOwnChannels (send-Shrinks f r xs ys w.state) v)
  Step-HasOwnChannels (arrived m) v = record { fresh = v.fresh; unique = v.unique }
  Step-HasOwnChannels {w} (dropped q c e) v =
      Shrinks-HasOwnChannels (fire_request-Shrinks f (handle f q c) w.state) v
  Step-HasOwnChannels {w} (polled decode q c h s e p) v =
      Shrinks-HasOwnChannels
        (poll_request-kept f (Shrinks-IsKept f) decode (handle f q c) w.state p) v
  Step-HasOwnChannels {w} (finished decode q c t h s e p) v =
      Shrinks-HasOwnChannels
        (poll_request-kept f (Shrinks-IsKept f) decode (handle f q c) w.state p) v
  Step-HasOwnChannels {w} (stream_polled decode h x p) v =
      Shrinks-HasOwnChannels (poll_stream-kept f (Shrinks-IsKept f) decode h w.state p) v
  Step-HasOwnChannels {w} (stream_fired h) v =
      Shrinks-HasOwnChannels (fire_stream-Shrinks f h w.state) v
  Step-HasOwnChannels {w} (served x p) v =
      Shrinks-HasOwnChannels (poll_dispatcher-kept f (Shrinks-IsKept f) w.state p) v
  Step-HasOwnChannels (taken rs aborts posts) v = record { fresh = v.fresh; unique = v.unique }
  Step-HasOwnChannels stopped v = record { fresh = v.fresh; unique = v.unique }

  Reach-HasOwnChannels :
      {w u : World f} → Reach f w u → HasOwnChannels w.state → HasOwnChannels u.state
  Reach-HasOwnChannels here v = v
  Reach-HasOwnChannels (next r p) v = Step-HasOwnChannels p (Reach-HasOwnChannels r v)

  start-HasOwnChannels : (has_server : Bool) → HasOwnChannels (start f has_server).state
  unfolding lookup
  start-HasOwnChannels has_server = record { fresh = λ q c h. cc; unique = λ q r c h k. cc }

  -- In every world that an interface reaches from its start, the messages that are dispatched there add to
  -- the buffer of an open stream just the items sent for its number, in order and up to its end marker, and
  -- that marker closes it.
  pub dispatch_all-reached :
      (has_server : Bool) (w : World f) (ms : List (Message f)) (q c : ℕ) {t : State f}
      → Reach f (start f has_server) w
      → lookup q w.state.stream_callbacks ≡ some c
      → dispatch_all f ms w.state ≡ ok t
      → t.queues c ≡ extend f (stream_of f q ms) (w.state.queues c)
  dispatch_all-reached has_server w ms q c reached live e =
      let v = Reach-HasOwnChannels reached (start-HasOwnChannels has_server) in
      dispatch_all-stream f ms w.state q c live (λ n h. v.unique n q c h live) e
