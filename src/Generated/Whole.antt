-- ===== src/Generated/Whole.antt =====
-- A remote call as a whole: the generated client and server (web-rpc-macro/src/lib.rs) over the interface
-- (web-rpc/src/client.rs, lib.rs) and the server's task (web-rpc/src/service.rs).
use web_rpc.Prelude.{
  ◌≡◌, refl, ap, ◌∙◌, Bool, true, Option, none, some, List, [], ◌∷◌, ◌++◌, map, Outcome, ok, panic,
  ◌>>=◌, Text,
}
use web_rpc.Session.Formats.{Formats, MessageHeader}
use web_rpc.Session.Message
use web_rpc.Session.Message.{Item, Message, Post, buffer}
use web_rpc.Session.State.{State, Delivery}
use web_rpc.Session.Dispatcher.{dispatch}
use web_rpc.Session.Client.{Handle, ready, disarm, poll_request}
use web_rpc.Session.World.{call}
use web_rpc.Service.Task
use web_rpc.Service.Task.{Task}
use web_rpc.Exchange.{serve, call-response}
use web_rpc.Wire.Platform.{Platform}
use web_rpc.Wire.Value
use web_rpc.Wire.Value.{Route}
use web_rpc.Wire.Params.{Param, Arguments}
use web_rpc.Generated.Enums.{value, Signature, Request, Response, Nth}
use web_rpc.Generated.Client.{client_request, unpack}
use web_rpc.Generated.Server.{
  Implementation, method_of, Executed, answered, outgoing, answer, execute,
}
use web_rpc.Generated.Calls.{unpack-outgoing, execute-client_request}

-- postcard's formats of the header and of the two enums, and an `ArrayBuffer` as a Javascript value.
pub record Codec (p : Platform) (ms : List (Signature p)) : Type 0 where
  pub write_header : MessageHeader → Text
  pub read_header : Text → Option MessageHeader
  pub write_request : Request p ms → Text
  pub read_request : Text → Option (Request p ms)
  pub write_response : Response p ms → Text
  pub read_response : Text → Option (Response p ms)
  pub array_buffer : Text → p.Js
  pub read-write_header : (h : MessageHeader) → read_header (write_header h) ≡ some h
  pub read-write_request : (r : Request p ms) → read_request (write_request r) ≡ some r
  pub read-write_response : (r : Response p ms) → read_response (write_response r) ≡ some r

module _ (p : Platform) {ms : List (Signature p)} (c : Codec p ms) where
  open p use {Js}

  abbrev pub formats : Formats
  formats = record {
    Js = Js;
    Request = Request p ms;
    Response = Response p ms;
    write_header = c.write_header;
    read_header = c.read_header;
    write_request = c.write_request;
    write_response = c.write_response;
    read_response = c.read_response;
    read-write_header = c.read-write_header;
    read-write_response = c.read-write_response;
  }

  abbrev pub to_item : Js → Item formats
  to_item v = Message.value v

  abbrev pub to_js : Item formats → Js
  to_js (buffer bytes) = c.array_buffer bytes
  to_js (Message.value v) = v

  js-items : (vs : List Js) → map to_js (map to_item vs) ≡ vs
  js-items [] = refl
  js-items (v ∷ vs) = ap (◌∷◌ v) (js-items vs)

  abbrev expect_request : Option (Request p ms) → Outcome (Request p ms)
  expect_request none = panic
  expect_request (some r) = ok r

  -- `execute`, on the payload of a request and the Javascript values behind it.
  unfoldable pub executed : Implementation p ms → Text → Message formats → Outcome (Executed p ms)
  executed fs payload js_args = do
    request ← expect_request (c.read_request payload)
    execute p fs request (map to_js js_args)

  -- The response that `executed` gives, as the task posts it.
  abbrev pub posted : Response p ms × List Js × List Js → Task.Outgoing formats
  posted (r, post, transfer) = (r, map to_item post, map to_item transfer)

  -- How the future of a call decodes what is delivered to it.
  unfoldable pub unpack_delivery :
      {m : Signature p} → Nth p m ms → (r : Route p) → Delivery formats → Outcome (Value.Value p r)
  unpack_delivery n r (response, items) = unpack p n r (response, map to_js items)

  -- A method of the generated client.
  abbrev pub remote_call :
      {m : Signature p} → Nth p m ms → Arguments p m.params → State formats → Handle × State formats
  remote_call n vs s =
      let sent = client_request p n vs in
      call formats sent.0 (map to_item sent.1.post) (map to_item sent.1.transfer) s

  pub executed-client_request :
      {m : Signature p} (n : Nth p m ms) (fs : Implementation p ms) (vs : Arguments p m.params)
      → let sent = client_request p n vs in
        executed fs (c.write_request sent.0) (map to_item sent.1.post)
        ≡ execute p fs sent.0 sent.1.post
  unfolding executed
  executed-client_request n fs vs =
      let sent = client_request p n vs in rw (c.read-write_request sent.0, js-items sent.1.post)

  pub unpack_delivery-outgoing :
      {m : Signature p} (n : Nth p m ms) (r : Route p) (v : Value.Value p r)
      → let sent = posted (outgoing p n r v) in unpack_delivery n r (sent.0, sent.1) ≡ ok v
  unfolding unpack_delivery
  unpack_delivery-outgoing n r v =
      let sent = outgoing p n r v in rw (js-items sent.1) (unpack-outgoing p n r v)

  -- A method of the generated client, called with arguments, posts one message. Where the other end has a
  -- server, its dispatcher queues the request, the generated server executes it by calling the same method
  -- of the implementation on the same arguments, and the task posts one answer. The dispatcher of the client
  -- takes that answer, and the future of the call is then ready with the value that the implementation
  -- returned.
  pub remote_call-returns :
      {ps : List (Param p)} {r : Route p} {is_async : Bool}
      (n : Nth p (record { params = ps; output = value r; is_async = is_async }) ms)
      (fs : Implementation p ms) (vs : Arguments p ps) (s t : State formats) (u : Task formats)
      → t.server_alive ≡ true
      → let a = remote_call n vs s in
        let payload = c.write_request (client_request p n vs).0 in
        let js_args = map to_item (client_request p n vs).1.post in
        (sent reply : Post formats) × (o : Response p ms × List Js × List Js) × (a.1.outbox
          ≡ s.outbox ++ sent ∷ [])
        × (dispatch formats sent.message t
            ≡ ok (record t { requests = t.requests ++ (a.0.number, payload, js_args) ∷ [] }))
        × (executed fs payload js_args ≡ ok (answered o))
        × ((serve formats (a.0.number, payload, js_args) (Task.value is_async) (posted o) u).outbox
            ≡ u.outbox ++ reply ∷ [])
        × (v : State formats) × (dispatch formats reply.message a.1 ≡ ok v)
        × (poll_request formats (unpack_delivery n r) a.0 v
            ≡ ok (ready (method_of p n fs vs), disarm a.0, v))
  unfolding answer
  remote_call-returns {ps} {r} {is_async} n fs vs s t u alive =
      let a = remote_call n vs s in
      let request = client_request p n vs in
      let returned = method_of p n fs vs in
      let o = outgoing p n r returned in
      let (sent, reply, e₁, e₂, e₃, v, e₄, e₅) =
        call-response formats (unpack_delivery n r) request.0 (map to_item request.1.post)
          (map to_item request.1.transfer) s t (Task.value is_async) (posted o).0 (posted o).1
          (posted o).2 u alive in
      (
        sent,
        reply,
        o,
        e₁,
        e₂,
        executed-client_request n fs vs ∙ execute-client_request p n fs vs,
        e₃,
        v,
        e₄,
        e₅
            ∙ ap (λ (x : Outcome (Value.Value p r)). x >>= λ y. ok (ready y, disarm a.0, v))
                (unpack_delivery-outgoing n r returned),
      )
