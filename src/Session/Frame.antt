-- ===== src/Session/Frame.antt =====
-- What the client's side of an interface (web-rpc/src/client.rs) and its dispatcher (web-rpc/src/lib.rs) leave
-- alone: the server, the listener, and but for a poll the messages that have arrived.
use web_rpc.Prelude.{
  ℕ, ◌≡◌, refl, ◌∙◌, subst, List, [], ◌∷◌, ◌++◌, All, All-append, Bool-cases, inl, inr, ok,
  >>=-eq-ok, Text,
}
use web_rpc.Session.Formats.{
  Formats, MessageHeader, request, abort, response, stream_item, stream_end,
}
use web_rpc.Session.Message.{Item, Message, Post, post_message, post_header, take_bytes}
use web_rpc.Session.State.{
  State, insert_callback, insert_stream_callback, remove_callback, remove_stream_callback,
}
use web_rpc.Session.Dispatcher.{
  dispatch, on_header, on_request, on_abort, on_response, on_stream_item, unwrap,
}
use web_rpc.Session.Client.{Handle, send, request_handle, stream_handle, fire_request, fire_stream}
use web_rpc.Session.Polls.{IsKept}

module _ (f : Formats) where
  -- The posts of a client: requests and aborts.
  pub data IsAsked : Post f → Type 0 where
    asked :
        (n : ℕ) (payload : Text) (xs ys : List (Item f))
        → IsAsked (post_message f (request n) payload xs ys)
    aborted : (n : ℕ) → IsAsked (post_header f (abort n))

  pub record Frame (s t : State f) : Type 1 where
    pub same_server : s.server_alive ≡ t.server_alive
    pub same_open : s.inbox_open ≡ t.inbox_open
    pub arrived : (P : Message f → Type 0) → All P s.inbox → All P t.inbox
    pub posted : All IsAsked s.outbox → All IsAsked t.outbox

  pub Frame-refl : (s : State f) → Frame s s
  Frame-refl s = record {
    same_server = refl;
    same_open = refl;
    arrived = λ P h. h;
    posted = λ h. h;
  }

  pub Frame-trans : {s t u : State f} → Frame s t → Frame t u → Frame s u
  Frame-trans a b = record {
    same_server = a.same_server ∙ b.same_server;
    same_open = a.same_open ∙ b.same_open;
    arrived = λ P h. b.arrived P (a.arrived P h);
    posted = λ h. b.posted (a.posted h);
  }

  -- Nothing of the frame changes.
  pub record Untouched (s t : State f) : Type 0 where
    pub server : s.server_alive ≡ t.server_alive
    pub listener : s.inbox_open ≡ t.inbox_open
    pub inbox : s.inbox ≡ t.inbox
    pub outbox : s.outbox ≡ t.outbox

  Untouched-Frame : {s t : State f} → Untouched s t → Frame s t
  Untouched-Frame u = record {
    same_server = u.server;
    same_open = u.listener;
    arrived = λ P h. subst (All P) u.inbox h;
    posted = λ h. subst (All IsAsked) u.outbox h;
  }

  same-Untouched : {s t : State f} → s ≡ t → Untouched s t
  same-Untouched {s} e =
      subst (Untouched s) e (record { server = refl; listener = refl; inbox = refl; outbox = refl })

  on_header-Untouched :
      (h : MessageHeader) (m : Message f) (s : State f) {t : State f}
      → on_header f h m s ≡ ok t
      → Untouched s t
  unfolding on_header on_request on_response on_abort on_stream_item remove_stream_callback
  on_header-Untouched (request n) m s e =
      let (x, _, e₁) = >>=-eq-ok (take_bytes f m) _ e in
      elim (Bool-cases s.server_alive) [
        | inl on ↦
            let e₂ = rw on at e₁ in record { server = cc; listener = cc; inbox = cc; outbox = cc }
        | inr off ↦ absurd (let e₂ = rw off at e₁ in cc)
      ]
  on_header-Untouched (abort n) m s e = elim (Bool-cases s.server_alive) [
    | inl on ↦ let e₂ = rw on at e in record { server = cc; listener = cc; inbox = cc; outbox = cc }
    | inr off ↦ same-Untouched (let e₂ = rw off at e in cc)
  ]
  on_header-Untouched (response n) m s e =
      let (x, _, e₁) = >>=-eq-ok (take_bytes f m) _ e in
      let (r, _, e₂) = >>=-eq-ok (unwrap f (f.read_response x.0)) _ e₁ in
      record { server = cc; listener = cc; inbox = cc; outbox = cc }
  on_header-Untouched (stream_item n) m s e =
      let (x, _, e₁) = >>=-eq-ok (take_bytes f m) _ e in
      let (r, _, e₂) = >>=-eq-ok (unwrap f (f.read_response x.0)) _ e₁ in
      record { server = cc; listener = cc; inbox = cc; outbox = cc }
  on_header-Untouched (stream_end n) m s e = record {
    server = cc;
    listener = cc;
    inbox = cc;
    outbox = cc;
  }

  dispatch-Frame : (m : Message f) (s : State f) {t : State f} → dispatch f m s ≡ ok t → Frame s t
  unfolding dispatch
  dispatch-Frame m s e =
      let (x, _, e₁) = >>=-eq-ok (take_bytes f m) _ e in
      let (h, _, e₂) = >>=-eq-ok (unwrap f (f.read_header x.0)) _ e₁ in
      Untouched-Frame (on_header-Untouched h x.1 s e₂)

  pub Frame-IsKept : IsKept f Frame
  Frame-IsKept = record {
    reflexive = Frame-refl;
    transitive = Frame-trans;
    dispatched = dispatch-Frame;
    emptied =
        λ s. record { same_server = refl; same_open = refl; arrived = λ P h. tt; posted = λ h. h };
    taken_items = λ c ds s.
        Untouched-Frame (record { server = refl; listener = refl; inbox = refl; outbox = refl });
  }

  pub send-Frame :
      (r : f.Request) (xs ys : List (Item f)) (s : State f) → Frame s (send f r xs ys s).1
  unfolding send
  send-Frame r xs ys s = record {
    same_server = refl;
    same_open = refl;
    arrived = λ P h. h;
    posted = λ h. All-append IsAsked s.outbox _ h (asked s.sequence (f.write_request r) xs ys, tt);
  }

  pub request_handle-Frame : (q : ℕ) (s : State f) → Frame s (request_handle f q s).1
  unfolding request_handle insert_callback
  request_handle-Frame q s =
      Untouched-Frame (record { server = refl; listener = refl; inbox = refl; outbox = refl })

  pub stream_handle-Frame : (q : ℕ) (s : State f) → Frame s (stream_handle f q s).1
  unfolding stream_handle insert_stream_callback
  stream_handle-Frame q s =
      Untouched-Frame (record { server = refl; listener = refl; inbox = refl; outbox = refl })

  -- An abort is posted on top of a change that leaves the frame alone.
  abort-Frame :
      (n : ℕ) {s t : State f}
      → Untouched s t
      → Frame s (record t { outbox = t.outbox ++ post_header f (abort n) ∷ [] })
  abort-Frame n {s} {t} u =
      let same = Untouched-Frame u in
      record {
        same_server = u.server;
        same_open = u.listener;
        arrived = same.arrived;
        posted = λ h. All-append IsAsked t.outbox _ (same.posted h) (aborted n, tt);
      }

  pub fire_request-Frame : (h : Handle) (s : State f) → Frame s (fire_request f h s).1
  unfolding fire_request remove_callback
  fire_request-Frame h s = elim (Bool-cases h.active) [
    | inl on ↦ rw on (
        abort-Frame h.number {t = remove_callback f h.number s}
          (record { server = refl; listener = refl; inbox = refl; outbox = refl }))
    | inr off ↦ rw off (Frame-refl s)
  ]

  pub fire_stream-Frame : (h : Handle) (s : State f) → Frame s (fire_stream f h s).1
  unfolding fire_stream remove_stream_callback
  fire_stream-Frame h s = elim (Bool-cases h.active) [
    | inl on ↦ rw on (
        abort-Frame h.number {t = remove_stream_callback f h.number s}
          (record { server = refl; listener = refl; inbox = refl; outbox = refl }))
    | inr off ↦ rw off (Frame-refl s)
  ]
