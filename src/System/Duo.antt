-- ===== src/System/Duo.antt =====
-- Two ends and the port between them (web-rpc/src/lib.rs, client.rs, service.rs): what either end does, in any
-- order. The port may deliver what was posted at any time, in any order and more than once.
use web_rpc.Prelude.{ℕ, ◌≡◌, true, List, [], ◌∷◌, ◌++◌}
use web_rpc.Session.Formats.{Formats}
use web_rpc.Session.Message.{Post}
use web_rpc.Session.State.{State}
use web_rpc.Session.World
use web_rpc.Session.Live
use web_rpc.Service.Task.{Body, Request, on_abort}
use web_rpc.Service.Steps

module _ (f : Formats) where
  -- An end: what client, dispatcher and server share, and the server's task.
  pub record End : Type 0 where
    pub session : World.World f
    pub server : Steps.World f

  abbrev pub start : End
  start = record { session = Live.start f true; server = Steps.start f }

  -- All that an end has posted.
  abbrev pub posts : End → List (Post f)
  posts a = a.session.state.outbox ++ a.server.task.outbox

  -- A step of the server in which nothing comes from the session.
  abbrev pub IsInternal : {w u : Steps.World f} → Steps.Step f w u → Type 0
  IsInternal (Steps.request r body) = ⊥
  IsInternal (Steps.abort q) = ⊥
  IsInternal _ = Unit

  -- A change of the state of a session.
  abbrev pub with_state : State f → World.World f → World.World f
  with_state s w = record w { state = s }

  -- What one end does, where the other is `b`.
  pub data Act (a b : End) : End → Type 1 where
    -- The client acts, a future or a stream is polled or dropped, or the server polls the dispatcher.
    acted :
        {w : World.World f} (p : World.Step f a.session w)
        → World.IsLocal f p
        → Act a b (record a { session = w })
    -- An execution goes on or ends, or a message of a stream is posted.
    worked :
        {w : Steps.World f} (p : Steps.Step f a.server w)
        → IsInternal p
        → Act a b (record a { server = w })
    -- The server takes a request from the session, or an abort.
    taken :
        (r : Request f) (rs : List (Request f)) (body : Body f)
        → a.session.state.requests ≡ r ∷ rs
        → Act a b (record {
          session = with_state (record (a.session.state) { requests = rs }) a.session;
          server = Steps.requested f r body a.server;
        })
    aborted :
        (q : ℕ) (qs : List ℕ)
        → a.session.state.aborts ≡ q ∷ qs
        → Act a b (record {
          session = with_state (record (a.session.state) { aborts = qs }) a.session;
          server = record (a.server) { task = on_abort f q a.server.task };
        })
    -- The port delivers what the other end has posted.
    delivered :
        (x : Post f) (xs ys : List (Post f))
        → posts b ≡ xs ++ x ∷ ys
        → Act a b (record a {
          session =
              with_state
                (record (a.session.state) { inbox = a.session.state.inbox ++ x.message ∷ [] })
                a.session;
        })

  pub data Reach : End → End → Type 1 where
    here : Reach start start
    ours : {a b c : End} → Reach a b → Act a b c → Reach c b
    theirs : {a b c : End} → Reach a b → Act b a c → Reach a c

  -- A history in which the client of the first end never takes the number of a request of its own that is
  -- live then.
  abbrev pub IsUnshared : {a b c : End} → Act a b c → Type 0
  IsUnshared (acted p l) = World.IsUnshared f p
  IsUnshared _ = Unit

  abbrev pub Unshared : {a b : End} → Reach a b → Type 0
  Unshared here = Unit
  Unshared (ours r p) = Unshared r × IsUnshared p
  Unshared (theirs r p) = Unshared r

  -- The two ends are alike.
  pub Reach-swap : {a b : End} → Reach a b → Reach b a
  Reach-swap here = here
  Reach-swap (ours r p) = theirs (Reach-swap r) p
  Reach-swap (theirs r p) = ours (Reach-swap r) p
