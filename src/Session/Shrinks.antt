-- ===== src/Session/Shrinks.antt =====
-- What an interface does to its stream map, other than opening a stream: it only loses entries.
use web_rpc.Prelude.{ℕ, ◌≤◌, ◌≡◌, some, List, ok, >>=-eq-ok, arith}
use web_rpc.Prelude.Dict.{lookup, remove, lookup-remove}
use web_rpc.Session.Formats.{
  Formats, MessageHeader, request, abort, response, stream_item, stream_end,
}
use web_rpc.Session.Message.{Item, Message, take_bytes}
use web_rpc.Session.State.{State, insert_callback, remove_callback, remove_stream_callback}
use web_rpc.Session.Dispatcher.{
  on_header, on_request, on_abort, on_response, on_stream_item, unwrap, dispatch,
}
use web_rpc.Session.Client.{Handle, send, request_handle, fire_request, fire_stream}
use web_rpc.Session.Polls.{IsKept}
use web_rpc.Session.Streams.{Change, same, item, ended, dispatch-Change}

module _ (f : Formats) where
  pub record Shrinks (s t : State f) : Type 0 where
    pub kept :
        (q c : ℕ) → lookup q t.stream_callbacks ≡ some c → lookup q s.stream_callbacks ≡ some c
    pub grows : s.next_channel ≤ t.next_channel

  pub Shrinks-refl : (s : State f) → Shrinks s s
  Shrinks-refl s = record { kept = λ q c h. h; grows = omega arith }

  pub Shrinks-trans : {s t u : State f} → Shrinks s t → Shrinks t u → Shrinks s u
  Shrinks-trans a b = record {
    kept = λ q c h. a.kept q c (b.kept q c h);
    grows = omega (arith, a.grows, b.grows);
  }

  on_header-next_channel :
      (h : MessageHeader) (m : Message f) (s : State f) {t : State f}
      → on_header f h m s ≡ ok t
      → s.next_channel ≡ t.next_channel
  unfolding on_header on_request on_response on_abort on_stream_item remove_stream_callback
  on_header-next_channel (request n) m s e =
      let (x, _, e₁) = >>=-eq-ok (take_bytes f m) _ e in ground arith
  on_header-next_channel (abort n) m s e = ground arith
  on_header-next_channel (response n) m s e =
      let (x, _, e₁) = >>=-eq-ok (take_bytes f m) _ e in
      let (r, _, e₂) = >>=-eq-ok (unwrap f (f.read_response x.0)) _ e₁ in cc
  on_header-next_channel (stream_item n) m s e =
      let (x, _, e₁) = >>=-eq-ok (take_bytes f m) _ e in
      let (r, _, e₂) = >>=-eq-ok (unwrap f (f.read_response x.0)) _ e₁ in cc
  on_header-next_channel (stream_end n) m s e = ground arith

  Change-kept :
      {s t : State f} {effect : _} (q c : ℕ)
      → Change f s t effect
      → lookup q t.stream_callbacks ≡ some c
      → lookup q s.stream_callbacks ≡ some c
  Change-kept q c (same _ e _) h = rw e at h
  Change-kept q c (item _ _ _ e _) h = rw e at h
  Change-kept {s} q c (ended n _ e _) h =
      let left : lookup q (remove n s.stream_callbacks) ≡ some c = rw e at h in
      ground (arith, lookup-remove n q s.stream_callbacks)

  dispatch-Shrinks :
      (m : Message f) (s : State f) {t : State f} → dispatch f m s ≡ ok t → Shrinks s t
  unfolding dispatch
  dispatch-Shrinks m s {t} e =
      let (x, _, e₁) = >>=-eq-ok (take_bytes f m) _ e in
      let (h, _, e₂) = >>=-eq-ok (unwrap f (f.read_header x.0)) _ e₁ in
      record {
        kept = λ q c. Change-kept q c (dispatch-Change f m s e);
        grows = omega (arith, on_header-next_channel h x.1 s e₂);
      }

  pub Shrinks-IsKept : IsKept f Shrinks
  Shrinks-IsKept = record {
    reflexive = Shrinks-refl;
    transitive = Shrinks-trans;
    dispatched = dispatch-Shrinks;
    emptied = λ s. record { kept = λ q c h. h; grows = omega arith };
    taken_items = λ c ds s. record { kept = λ q r h. h; grows = omega arith };
  }

  pub send-Shrinks :
      (r : f.Request) (xs ys : List (Item f)) (s : State f) → Shrinks s (send f r xs ys s).1
  unfolding send
  send-Shrinks r xs ys s = record { kept = λ q c h. h; grows = omega arith }

  pub request_handle-Shrinks : (q : ℕ) (s : State f) → Shrinks s (request_handle f q s).1
  unfolding request_handle insert_callback
  request_handle-Shrinks q s = record { kept = λ q c h. h; grows = omega arith }

  pub fire_request-Shrinks : (h : Handle) (s : State f) → Shrinks s (fire_request f h s).1
  unfolding fire_request remove_callback
  fire_request-Shrinks h s = record { kept = λ q c e. ground arith; grows = ground arith }

  pub fire_stream-Shrinks : (h : Handle) (s : State f) → Shrinks s (fire_stream f h s).1
  unfolding fire_stream remove_stream_callback
  fire_stream-Shrinks h s = record {
    kept = λ q c e. ground (arith, lookup-remove h.number q s.stream_callbacks);
    grows = ground arith;
  }
