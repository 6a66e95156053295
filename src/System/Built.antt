-- ===== src/System/Built.antt =====
-- An interface that is built for a server (web-rpc/src/lib.rs, `Builder::build`): what becomes of the messages that
-- had arrived before, and of those that follow.
use web_rpc.Prelude.{
  ℕ, ◌≡◌, refl, ap, ◌∙◌, true, false, Option, none, some, List, [], ◌∷◌, ◌++◌, append_assoc,
  append-nil, All, Text, ok, >>=-eq-ok,
}
use web_rpc.Prelude.Dict.{lookup, remove}
use web_rpc.Session.Formats.{
  Formats, MessageHeader, request, abort, response, stream_item, stream_end,
}
use web_rpc.Session.Message.{Message, buffer, value, take_bytes}
use web_rpc.Session.State.{State, remove_stream_callback}
use web_rpc.Session.Dispatcher.{
  dispatch, dispatch_all, poll_dispatcher, on_header, on_request, on_abort, on_response,
  on_stream_item, unwrap,
}
use web_rpc.Session.World.{initial}
use web_rpc.Session.Build.{
  Interface, new, with_service, with_client, build_server, build_both, assemble,
}
use web_rpc.System.Sent.{IsSent, poll_dispatcher-IsSent}

module _ (f : Formats) where
  -- The request that a message with a header is, and the abort.
  abbrev asks : Option MessageHeader → Message f → List (ℕ × Text × Message f)
  asks (some (request n)) (buffer payload ∷ rest) = (n, payload, rest) ∷ []
  asks _ _ = []

  abbrev aborts : Option MessageHeader → List ℕ
  aborts (some (abort n)) = n ∷ []
  aborts _ = []

  -- The requests and the aborts among messages, in order.
  abbrev pub requests_among : List (Message f) → List (ℕ × Text × Message f)
  requests_among [] = []
  requests_among ((buffer header ∷ rest) ∷ ms) =
      asks (f.read_header header) rest ++ requests_among ms
  requests_among (_ ∷ ms) = requests_among ms

  abbrev pub aborts_among : List (Message f) → List ℕ
  aborts_among [] = []
  aborts_among ((buffer header ∷ rest) ∷ ms) = aborts (f.read_header header) ++ aborts_among ms
  aborts_among (_ ∷ ms) = aborts_among ms

  -- A state with a server and without a client, with what is queued for the server.
  abbrev serving : State f → List (ℕ × Text × Message f) → List ℕ → State f
  serving s rs qs = record s {
    callbacks = [];
    stream_callbacks = [];
    server_alive = true;
    requests = rs;
    aborts = qs;
  }

  unwrap-eq-ok : {A : Type 0} (o : Option A) {a : A} → unwrap f o ≡ ok a → o ≡ some a
  unwrap-eq-ok none e = cc
  unwrap-eq-ok (some a) e = cc

  on_header-serving :
      (h : MessageHeader) (m : Message f) (s : State f) (rs : List (ℕ × Text × Message f))
      (qs : List ℕ) {t : State f}
      → on_header f h m (serving s rs qs) ≡ ok t
      → t ≡ serving s (rs ++ asks (some h) m) (qs ++ aborts (some h))
  unfolding on_header on_request on_response on_abort on_stream_item remove_stream_callback
      take_bytes lookup remove
  on_header-serving (request n) (buffer p ∷ rest) s rs qs e = rw (append-nil qs) (cc)
  on_header-serving (request n) (value v ∷ rest) s rs qs e = cc
  on_header-serving (request n) [] s rs qs e = cc
  on_header-serving (abort n) m s rs qs e = rw (append-nil rs) (cc)
  on_header-serving (response n) m s rs qs e =
      let (x, _, e₁) = >>=-eq-ok (take_bytes f m) _ e in
      let (r, _, e₂) = >>=-eq-ok (unwrap f (f.read_response x.0)) _ e₁ in
      rw (append-nil rs, append-nil qs) (cc)
  on_header-serving (stream_item n) m s rs qs e =
      let (x, _, e₁) = >>=-eq-ok (take_bytes f m) _ e in
      let (r, _, e₂) = >>=-eq-ok (unwrap f (f.read_response x.0)) _ e₁ in
      rw (append-nil rs, append-nil qs) (cc)
  on_header-serving (stream_end n) m s rs qs e = rw (append-nil rs, append-nil qs) (cc)

  dispatch_all-serving :
      (ms : List (Message f)) (s : State f) (rs : List (ℕ × Text × Message f)) (qs : List ℕ)
      {t : State f}
      → dispatch_all f ms (serving s rs qs) ≡ ok t
      → t ≡ serving s (rs ++ requests_among ms) (qs ++ aborts_among ms)
  unfolding dispatch_all dispatch take_bytes
  dispatch_all-serving [] s rs qs e = rw (append-nil rs, append-nil qs) (cc)
  dispatch_all-serving ([] ∷ ms) s rs qs e = cc
  dispatch_all-serving ((value v ∷ rest) ∷ ms) s rs qs e = cc
  dispatch_all-serving ((buffer b ∷ rest) ∷ ms) s rs qs {t} e =
      let (u, e₁, e₂) = >>=-eq-ok (dispatch f (buffer b ∷ rest) (serving s rs qs)) _ e in
      let (h, read, e₃) = >>=-eq-ok (unwrap f (f.read_header b)) _ e₁ in
      let header : f.read_header b ≡ some h = unwrap-eq-ok (f.read_header b) read in
      let p = on_header-serving h rest s rs qs e₃ in
      let later : dispatch_all f ms (serving s (rs ++ asks (some h) rest) (qs ++ aborts (some h)))
          ≡ ok t =
        rw p at e₂ in
      rw header (
        rw⁻¹
          (
            append_assoc rs (asks (some h) rest) (requests_among ms),
            append_assoc qs (aborts (some h)) (aborts_among ms),
          )
          (dispatch_all-serving ms s (rs ++ asks (some h) rest) (qs ++ aborts (some h)) later))

  -- An interface is built for a server, or for a server and a client. Whatever had arrived before, and whatever
  -- follows, if it was posted by some end, then the first poll of the dispatcher goes through and queues
  -- all the requests among those messages for the server, and all the aborts, in order and each once, and
  -- changes nothing else; a response or a message of a stream is dropped.
  pub poll_dispatcher-built :
      {T : Type 0} (i : Interface f) (service : T) (ms : List (Message f))
      → All (IsSent f) (i.messages ++ ms)
      → let served = (build_server f (with_service f service (new f i))).0 in
        let both = (build_both f (with_client f (with_service f service (new f i)))).0 in
        let queued = record (initial f true) {
          requests = requests_among (i.messages ++ ms);
          aborts = aborts_among (i.messages ++ ms);
        } in
        (poll_dispatcher f (record served { inbox = served.inbox ++ ms }) ≡ ok (queued, false))
        × (poll_dispatcher f (record both { inbox = both.inbox ++ ms }) ≡ ok (queued, false))
  unfolding build_server build_both assemble new with_service with_client
  poll_dispatcher-built i service ms sent =
      let now : State f = record (initial f true) { inbox = i.messages ++ ms } in
      let (t, all, e) = poll_dispatcher-IsSent f now sent refl in
      let done =
        e
        ∙ ap (λ (x : State f). ok (x, false))
            (dispatch_all-serving (i.messages ++ ms) (initial f true) [] [] all) in
      (done, done)
