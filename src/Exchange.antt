-- ===== src/Exchange.antt =====
-- One call from end to end: web-rpc/src/client.rs at one end, web-rpc/src/service.rs at the other.
pub mod Posts
pub mod Streaming
mod Tests
use web_rpc.Prelude.{
  ℕ, ◌≡◌, refl, ap, ◌∙◌, true, some, List, [], ◌∷◌, ◌++◌, Outcome, ok, panic, ◌>>=◌, arith,
  if◌then◌else◌,
}
use web_rpc.Prelude.Dict.{lookup, lookup-insert}
use web_rpc.Session.Formats.{Formats, response}
use web_rpc.Session.Message.{Item, Message, Post, post_message}
use web_rpc.Session.State.{State, Delivery, insert_callback}
use web_rpc.Session.Dispatcher.{dispatch}
use web_rpc.Session.Client.{ready, disarm, send, request_handle, poll_request}
use web_rpc.Session.World.{call}
use web_rpc.Session.Replies.{reply-reaches, dispatch-send}
use web_rpc.Service.Task
use web_rpc.Service.Task.{Task, Body, Outgoing, ExecuteResult, on_execution, forget}

module _ (f : Formats) where
  -- What the server does with a request that has come in, when its execution gives a response.
  abbrev pub serve : Task.Request f → Body f → Outgoing f → Task f → Task f
  serve r body o t = on_execution f r.0 (ExecuteResult.reply (some o)) (Task.on_request f r body t)

  serve-outbox :
      (q : ℕ) (payload : _) (xs : Message f) (body : Body f) (r : f.Response)
      (ys zs : List (Item f)) (t : Task f)
      → (serve (q, payload, xs) body (r, ys, zs) t).outbox
        ≡ t.outbox ++ post_message f (response q) (f.write_response r) ys zs ∷ []
  unfolding Task.on_request on_execution forget
  serve-outbox q payload xs body r ys zs t =
      ground (arith, lookup-insert q q t.next_abort t.running)

  call-lookup :
      (r : f.Request) (xs ys : List (Item f)) (s : State f)
      → let a = call f r xs ys s in lookup a.0.number a.1.callbacks ≡ some a.0.channel
  unfolding send request_handle insert_callback
  call-lookup r xs ys s =
      ground (arith, lookup-insert s.sequence s.sequence s.next_channel s.callbacks)

  call-outbox :
      (r : f.Request) (xs ys : List (Item f)) (s : State f)
      → (call f r xs ys s).1.outbox ≡ (send f r xs ys s).1.outbox
  unfolding send request_handle insert_callback
  call-outbox r xs ys s = refl

  call-number :
      (r : f.Request) (xs ys : List (Item f)) (s : State f)
      → (call f r xs ys s).0.number ≡ s.sequence
  unfolding send request_handle insert_callback
  call-number r xs ys s = refl

  -- A call from end to end: the client posts one message; where the other end has a server, its dispatcher
  -- queues the request; the server that executes it and gets a response posts one message; the client's
  -- dispatcher takes that one, and the future of the call is then ready, with the response and the
  -- Javascript values behind it decoded.
  pub call-response {ℓ} :
      {T : Type ℓ} (decode : Delivery f → Outcome T) (r : f.Request) (xs ys : List (Item f))
      (s t : State f) (body : Body f) (o : f.Response) (ks bs : List (Item f)) (u : Task f)
      → t.server_alive ≡ true
      → let a = call f r xs ys s in
        (sent answer : Post f) × (a.1.outbox ≡ s.outbox ++ sent ∷ [])
        × (dispatch f sent.message t
            ≡ ok (record t { requests = t.requests ++ (a.0.number, f.write_request r, xs) ∷ [] }))
        × ((serve (a.0.number, f.write_request r, xs) body (o, ks, bs) u).outbox
            ≡ u.outbox ++ answer ∷ [])
        × (v : State f) × (dispatch f answer.message a.1 ≡ ok v)
        × (poll_request f decode a.0 v ≡ (decode (o, ks) >>= λ x. ok (ready x, disarm a.0, v)))
  call-response decode r xs ys s t body o ks bs u alive =
      let a = call f r xs ys s in
      let (sent, p, q) = dispatch-send f r xs ys s t in
      let (v, d, _, polled, _, _, _, _) =
        reply-reaches f decode a.0 o ks bs a.1 (call-lookup r xs ys s) in
      (
        sent,
        post_message f (response a.0.number) (f.write_response o) ks bs,
        call-outbox r xs ys s ∙ p,
        rw (call-number r xs ys s) (
            q
            ∙ ap
                (λ b.
                  if b
                  then ok (record t {
                    requests = t.requests ++ (s.sequence, f.write_request r, xs) ∷ [];
                  })
                  else panic)
                alive),
        serve-outbox a.0.number (f.write_request r) xs body o ks bs u,
        v,
        d,
        polled,
      )
