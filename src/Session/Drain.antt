-- ===== src/Session/Drain.antt =====
-- Closing a stream: what `StreamReceiver::close` of web-rpc/src/client.rs promises.
use web_rpc.Prelude.{
  ℕ, zero, suc, ◌≡◌, refl, ap, ◌∙◌, Bool, true, false, Option, none, some, List, [], ◌∷◌, ◌++◌,
  arith, map, Outcome, ok, ◌>>=◌, length,
}
use web_rpc.Prelude.Dict.{lookup, lookup-remove}
use web_rpc.Session.Formats.{Formats, abort}
use web_rpc.Session.Message.{post_header}
use web_rpc.Session.State.{State, Delivery, Queue, update_self, remove_stream_callback}
use web_rpc.Session.Client.{
  Handle, Poll, ready, pending, poll_stream, poll_items, keep_items, fire_stream,
}

module _ (f : Formats) where
  module _ {ℓ} {T : Type ℓ} (decode : Delivery f → Outcome T) where
    abbrev then_more :
        (Handle → State f → Outcome (List T × Bool))
        → Poll (Option T) × Handle × State f
        → Outcome (List T × Bool)
    then_more more (ready (some t), h, s) = more h s >>= λ (ts, over). ok (t ∷ ts, over)
    then_more more (ready none, h, s) = ok ([], true)
    then_more more (pending, h, s) = ok ([], false)

    -- At most `n` polls in a row: the items they yield, and whether the stream ended.
    unfoldable pub received : ℕ → Handle → State f → Outcome (List T × Bool)
    received zero h s = ok ([], false)
    received (suc n) h s = poll_stream f decode h s >>= then_more (received n)

  -- What a list of deliveries is decoded to, without a panic.
  pub data Decodes {ℓ} {T : Type ℓ} (decode : Delivery f → Outcome T)
      : List (Delivery f) → List T → Type ℓ where
    none_left : Decodes decode [] []
    one_more :
        {d : Delivery f} {t : T} {ds : List (Delivery f)} {ts : List T}
        → decode d ≡ ok t
        → Decodes decode ds ts
        → Decodes decode (d ∷ ds) (t ∷ ts)

  pub Decodes-length {ℓ} :
      {T : Type ℓ} {decode : Delivery f → Outcome T} {ds : List (Delivery f)} {ts : List T}
      → Decodes decode ds ts
      → length ds ≡ length ts
  Decodes-length none_left = refl
  Decodes-length (one_more e all) = ap suc (Decodes-length all)

  -- The stream of a closed buffer, polled once for each item and once more.
  pub received_closed {ℓ} :
      {T : Type ℓ} (decode : Delivery f → Outcome T) (ds : List (Delivery f)) (ts : List T)
      (h : Handle) (s : State f)
      → Decodes decode ds ts
      → s.queues h.channel ≡ record { items = ds; is_open = false }
      → received decode (suc (length ds)) h s ≡ ok (ts, true)
  unfolding received poll_stream poll_items
  received_closed decode [] [] h s none_left e = rw (e, poll_stream)
  received_closed {T} decode (d ∷ ds) (t ∷ ts) h s (one_more first all) e =
      let kept : State f = keep_items f h.channel ds s in
      let now : kept.queues h.channel ≡ record { items = ds; is_open = false } =
        update_self s.queues h.channel (record (s.queues h.channel) { items = ds })
        ∙ ap (λ (q : Queue f). record q { items = ds }) e in
      rw (e, poll_stream)
        (rw (first, poll_items)
          (ap
            (λ (o : Outcome (List T × Bool)). ◌>>=◌ {B = List T × Bool} o (λ x. ok (t ∷ x.0, x.1)))
            (received_closed decode ds ts h kept all now)))
  received_closed decode [] (t ∷ ts) h s all e = elim all [ ]
  received_closed decode (d ∷ ds) [] h s all e = elim all [ ]

  Decodes-map {ℓ} :
      {T : Type ℓ} (g : Delivery f → T) (ds : List (Delivery f))
      → Decodes (λ d. ok (g d)) ds (map g ds)
  Decodes-map g [] = none_left
  Decodes-map g (d ∷ ds) = one_more refl (Decodes-map g ds)

  -- After `close`, or any other firing of the abort of a stream, the items that were buffered still arrive by
  -- polling, all of them and in order, and then the stream ends. The producer gets one abort, of the number
  -- of the stream; its entry is gone; and another firing does nothing.
  pub close-drains {ℓ} :
      {T : Type ℓ} (g : Delivery f → T) (h : Handle) (s : State f)
      → h.active ≡ true
      → lookup h.number s.stream_callbacks ≡ some h.channel
      → let closed = fire_stream f h s in
        (received (λ d. ok (g d)) (suc (length (s.queues h.channel).items)) closed.0 closed.1
          ≡ ok (map g (s.queues h.channel).items, true))
        × (closed.1.outbox ≡ s.outbox ++ post_header f (abort h.number) ∷ [])
        × (lookup h.number closed.1.stream_callbacks ≡ none)
        × (fire_stream f closed.0 closed.1 ≡ closed)
  unfolding fire_stream remove_stream_callback
  close-drains g h s on here =
      let items = (s.queues h.channel).items in
      (
        received_closed (λ d. ok (g d)) items (map g items) (fire_stream f h s).0
            (fire_stream f h s).1 (Decodes-map g items)
            (rw on (
              rw here (
                update_self s.queues h.channel (record (s.queues h.channel) { is_open = false })))),
        rw on refl,
        rw on (ground (arith, lookup-remove h.number h.number s.stream_callbacks)),
        rw on refl,
      )
