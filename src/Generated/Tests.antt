-- ===== src/Generated/Tests.antt =====
-- A trait of three methods, its enums written as bytes, and a call of its second method.
use web_rpc.Prelude.{
  inl, inr, ℕ, zero, suc, ◌≡◌, refl, ap, true, false, Option, none, some, List, [], ◌∷◌, ◌++◌, map,
  ok, panic, Text,
}
use mathlib.Core.Option
use web_rpc.Session.Message.{Post}
use web_rpc.Session.State.{State}
use web_rpc.Session.Dispatcher.{dispatch}
use web_rpc.Session.Client.{ready, disarm, poll_request}
use web_rpc.Session.World.{initial}
use web_rpc.Session.Tests.{tag_bytes, read_tag_bytes, tag_bytes-read}
use web_rpc.Service.Task
use web_rpc.Service.Steps
use web_rpc.Exchange.{serve}
use web_rpc.Wire.Arg.{WireArg}
use web_rpc.Wire.Value.{Route, option, result, js, leaf}
use web_rpc.Wire.Params.{borrowed, routed, Arguments}
use web_rpc.Wire.Tests.{numbers}
use web_rpc.Generated.Enums.{notify, value, stream, Signature, Request, Response, Nth, first, later}
use web_rpc.Generated.Client.{client_request, unpack}
use web_rpc.Generated.Errors.{unpack-other, place, variant}
use web_rpc.Generated.Server.{Implementation, answered, method_of}
use web_rpc.Generated.Whole.{
  Codec, formats, to_item, executed, posted, unpack_delivery, remote_call, remote_call-returns,
}

abbrev write_wire : WireArg → Text
write_wire WireArg.js = 0 ∷ []
write_wire (WireArg.bytes b) = 1 ∷ b
write_wire WireArg.none = 2 ∷ []
write_wire (WireArg.some w) = 3 ∷ write_wire w
write_wire (WireArg.ok w) = 4 ∷ write_wire w
write_wire (WireArg.err w) = 5 ∷ write_wire w

abbrev read_wire : Text → Option WireArg
read_wire [] = none
read_wire (zero ∷ bs) = some WireArg.js
read_wire (suc zero ∷ bs) = some (WireArg.bytes bs)
read_wire (suc (suc zero) ∷ bs) = some WireArg.none
read_wire (suc (suc (suc zero)) ∷ bs) = Option.map WireArg.some (read_wire bs)
read_wire (suc (suc (suc (suc zero))) ∷ bs) = Option.map WireArg.ok (read_wire bs)
read_wire (suc (suc (suc (suc (suc n)))) ∷ bs) = Option.map WireArg.err (read_wire bs)

write_wire-read : (w : WireArg) → read_wire (write_wire w) ≡ some w
write_wire-read WireArg.js = refl
write_wire-read (WireArg.bytes b) = refl
write_wire-read WireArg.none = refl
write_wire-read (WireArg.some w) = ap (Option.map WireArg.some) (write_wire-read w)
write_wire-read (WireArg.ok w) = ap (Option.map WireArg.ok) (write_wire-read w)
write_wire-read (WireArg.err w) = ap (Option.map WireArg.err) (write_wire-read w)

-- `Option<Post<T>>`, or an error that is encoded.
abbrev found : Route numbers
found = result (option (js false tt)) (leaf tt)

-- `fn ping(&self)` and `fn find(&self, key: &str, value: Transfer<T>) -> Result<Option<Post<T>>, E>`.
abbrev ping : Signature numbers
ping = record { params = []; output = notify; is_async = false }

abbrev find : Signature numbers
find = record {
  params = borrowed tt ∷ routed (js true tt) ∷ [];
  output = value found;
  is_async = false;
}

-- `fn list(&self) -> impl Stream<Item = Post<T>>`.
abbrev pub list : Signature numbers
list = record { params = []; output = stream (js false tt); is_async = false }

abbrev pub methods : List (Signature numbers)
methods = ping ∷ find ∷ list ∷ []

abbrev write_fields : Request numbers methods → Text
write_fields (inl u) = 0 ∷ []
write_fields (inr (inl (key, (w, u)))) = 1 ∷ key ∷ write_wire w
write_fields (inr (inr (inl u))) = 2 ∷ []
write_fields (inr (inr (inr u))) = 3 ∷ []

abbrev read_fields : Text → Option (Request numbers methods)
read_fields (zero ∷ bs) = some (inl tt)
read_fields (suc zero ∷ key ∷ bs) = Option.map (λ w. inr (inl (key, (w, tt)))) (read_wire bs)
read_fields (suc (suc zero) ∷ bs) = some (inr (inr (inl tt)))
read_fields (suc (suc (suc n)) ∷ bs) = some (inr (inr (inr tt)))
read_fields _ = none

pub write_fields-read : (r : Request numbers methods) → read_fields (write_fields r) ≡ some r
write_fields-read (inl u) = refl
write_fields-read (inr (inl (key, (w, u)))) =
    ap (Option.map (λ w'. inr (inl (key, (w', tt))))) (write_wire-read w)
write_fields-read (inr (inr (inl u))) = refl
write_fields-read (inr (inr (inr u))) = refl

abbrev write_answer : Response numbers methods → Text
write_answer (inl w) = 0 ∷ write_wire w
write_answer (inr (inl w)) = 1 ∷ write_wire w
write_answer (inr (inr (inl w))) = 2 ∷ write_wire w
write_answer (inr (inr (inr r))) = elim r [ ]

abbrev read_answer : Text → Option (Response numbers methods)
read_answer (zero ∷ bs) = Option.map inl (read_wire bs)
read_answer (suc zero ∷ bs) = Option.map (λ w. inr (inl w)) (read_wire bs)
read_answer (suc (suc n) ∷ bs) = Option.map (λ w. inr (inr (inl w))) (read_wire bs)
read_answer [] = none

pub write_answer-read : (r : Response numbers methods) → read_answer (write_answer r) ≡ some r
write_answer-read (inl w) = ap (Option.map inl) (write_wire-read w)
write_answer-read (inr (inl w)) = ap (Option.map (λ w'. inr (inl w'))) (write_wire-read w)
write_answer-read (inr (inr (inl w))) =
    ap (Option.map (λ w'. inr (inr (inl w')))) (write_wire-read w)
write_answer-read (inr (inr (inr r))) = elim r [ ]

abbrev second : Nth numbers find methods
second = later first

abbrev asked_for : Arguments numbers (find.params)
asked_for = (7, (9, tt))

abbrev pub bytes : Codec numbers methods
bytes = record {
  write_header = tag_bytes;
  read_header = read_tag_bytes;
  write_request = write_fields;
  read_request = read_fields;
  write_response = write_answer;
  read_response = read_answer;
  array_buffer = λ t. 0;
  read-write_header = tag_bytes-read;
  read-write_request = write_fields-read;
  read-write_response = write_answer-read;
}

-- `find` gives back the value that it gets.
abbrev pub store : Implementation numbers methods
store = (λ u. tt, (λ (vs : Arguments numbers (find.params)). inl (some vs.1.0), (λ u. 9 ∷ [], tt)))

remote_call-returns_example :
    let s = initial (formats numbers bytes) true in
    let u = (Steps.start (formats numbers bytes)).task in
    let a = remote_call numbers bytes second asked_for s in
    let payload = write_fields (client_request numbers second asked_for).0 in
    let js_args = map (to_item numbers bytes) (client_request numbers second asked_for).1.post in
    (sent reply : Post (formats numbers bytes)) × (o : Response numbers methods × List ℕ × List ℕ)
    × (a.1.outbox ≡ s.outbox ++ sent ∷ [])
    × (dispatch (formats numbers bytes) sent.message s
        ≡ ok (record s { requests = s.requests ++ (a.0.number, payload, js_args) ∷ [] }))
    × (executed numbers bytes store payload js_args ≡ ok (answered o))
    × ((serve
          (formats numbers bytes)
          (a.0.number, payload, js_args)
          (Task.value false)
          (posted numbers bytes o)
          u).outbox
        ≡ u.outbox ++ reply ∷ [])
    × (v : State (formats numbers bytes)) × (dispatch (formats numbers bytes) reply.message a.1
        ≡ ok v)
    × (poll_request (formats numbers bytes) (unpack_delivery numbers bytes second found) a.0 v
        ≡ ok (ready (inl (some 9)), disarm a.0, v))
unfolding method_of
remote_call-returns_example =
    remote_call-returns numbers bytes second store asked_for (initial (formats numbers bytes) true)
      (initial (formats numbers bytes) true) ((Steps.start (formats numbers bytes)).task) refl

-- A response of `ping`, which the client's `find` refuses.
ping_answer-refused : unpack numbers second found (inl WireArg.js, 9 ∷ []) ≡ panic
ping_answer-refused =
    unpack-other numbers second found (inl WireArg.js) (9 ∷ []) (unfold place variant in λ e. cc)
