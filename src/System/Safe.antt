-- ===== src/System/Safe.antt =====
-- Two ends that are both kept (web-rpc/src/lib.rs, client.rs, service.rs): no poll panics.
use web_rpc.Prelude.{
  ℕ, ◌≡◌, ◌≢◌, refl, sym, ap, ◌∙◌, subst, not, arith, true, false, Bool, some, List, [], ◌∷◌, ◌++◌,
  All, All-append, All-mono, Outcome, ok, panic, ◌>>=◌,
}
use web_rpc.Session.Formats.{Formats}
use web_rpc.Session.Message.{Post}
use web_rpc.Session.State.{State, Delivery, delivered}
use web_rpc.Session.Dispatcher.{dispatch_all, poll_dispatcher}
use web_rpc.Session.Client.{Handle, poll_request, poll_stream, poll_items, poll_cell, wait}
use web_rpc.Session.Frame.{IsAsked}
use web_rpc.Session.Local.{IsLocal-Frame}
use web_rpc.Session.Sound.{IsPending, awaited, answered}
use web_rpc.Session.World.{handle}
use web_rpc.Session.Live
use web_rpc.Service.Steps
use web_rpc.Exchange.Posts.{IsServed, Step-IsServed}
use web_rpc.System.Duo.{
  End, start, posts, Act, acted, worked, taken, aborted, Reach, here, ours, theirs,
}
use web_rpc.System.Duo
use web_rpc.System.Sent.{IsSent, by_client, by_server, poll_dispatcher-IsSent}

module _ (f : Formats) where
  -- An end whose server and listener are kept, and which has received and posted only what ends post.
  pub record IsGood (a : End f) : Type 0 where
    pub alive : a.session.state.server_alive ≡ true
    pub listening : a.session.state.inbox_open ≡ true
    pub received : All (IsSent f) a.session.state.inbox
    pub asked : All (IsAsked f) a.session.state.outbox
    pub served : All (IsServed f) a.server.task.outbox

  start-IsGood : IsGood (start f)
  start-IsGood = record { alive = refl; listening = refl; received = tt; asked = tt; served = tt }

  middle :
      (P : Post f → Type 0) (xs : List (Post f)) (x : Post f) (ys : List (Post f))
      → All P (xs ++ x ∷ ys)
      → P x
  middle P [] x ys h = h.0
  middle P (y ∷ xs) x ys h = middle P xs x ys h.1

  posts-IsSent : (b : End f) → IsGood b → All (λ x. IsSent f x.message) (posts f b)
  posts-IsSent b g =
      All-append (λ x. IsSent f x.message) b.session.state.outbox b.server.task.outbox
        (All-mono (IsAsked f) (λ x. IsSent f x.message) (λ x h. by_client h) b.session.state.outbox
          g.asked)
        (All-mono (IsServed f) (λ x. IsSent f x.message) (λ x h. by_server h) b.server.task.outbox
          g.served)

  Act-IsGood : {a b c : End f} → IsGood a → IsGood b → Act f a b c → IsGood c
  Act-IsGood {a} g h (acted p l) =
      let k = IsLocal-Frame f p l in
      record {
        alive = sym k.same_server ∙ g.alive;
        listening = sym k.same_open ∙ g.listening;
        received = k.arrived (IsSent f) g.received;
        asked = k.posted g.asked;
        served = g.served;
      }
  Act-IsGood g h (worked p l) = record {
    alive = g.alive;
    listening = g.listening;
    received = g.received;
    asked = g.asked;
    served = Step-IsServed f p g.served;
  }
  Act-IsGood {a} g h (taken r rs body e) = record {
    alive = g.alive;
    listening = g.listening;
    received = g.received;
    asked = g.asked;
    served = Step-IsServed f {w = a.server} (Steps.request r body) g.served;
  }
  Act-IsGood {a} g h (aborted q qs e) = record {
    alive = g.alive;
    listening = g.listening;
    received = g.received;
    asked = g.asked;
    served = Step-IsServed f {w = a.server} (Steps.abort q) g.served;
  }
  Act-IsGood {a} {b} g h (Duo.delivered x xs ys e) =
      let sent = subst (All (λ y. IsSent f y.message)) e (posts-IsSent b h) in
      record {
        alive = g.alive;
        listening = g.listening;
        received =
            All-append (IsSent f) a.session.state.inbox (x.message ∷ []) g.received
              (middle (λ y. IsSent f y.message) xs x ys sent, tt);
        asked = g.asked;
        served = g.served;
      }

  Reach-IsGood : {a b : End f} → Reach f a b → IsGood a × IsGood b
  Reach-IsGood here = (start-IsGood, start-IsGood)
  Reach-IsGood (ours r p) = let (g, h) = Reach-IsGood r in (Act-IsGood g h p, h)
  Reach-IsGood (theirs r p) = let (g, h) = Reach-IsGood r in (g, Act-IsGood h g p)

  Act-Inv :
      {a b c : End f} (p : Act f a b c)
      → Duo.IsUnshared f p
      → Live.Inv f a.session
      → Live.Inv f c.session
  Act-Inv (acted p l) n v = Live.Step-Inv f p n v
  Act-Inv (worked p l) n v = v
  Act-Inv (taken r rs body e) n v =
      Live.Agrees-Inv f v
        (record { same_callbacks = refl; same_oneshots = refl; grows = omega arith })
  Act-Inv (aborted q qs e) n v =
      Live.Agrees-Inv f v
        (record { same_callbacks = refl; same_oneshots = refl; grows = omega arith })
  Act-Inv (Duo.delivered x xs ys e) n v =
      Live.Agrees-Inv f v
        (record { same_callbacks = refl; same_oneshots = refl; grows = omega arith })

  Reach-Inv : {a b : End f} (r : Reach f a b) → Duo.Unshared f r → Live.Inv f a.session
  Reach-Inv here n = Live.start-Inv f true
  Reach-Inv (ours r p) (n, n') = Act-Inv p n' (Reach-Inv r n)
  Reach-Inv (theirs r p) n = Reach-Inv r n

  module _ (a : End f) (g : IsGood a) where
    -- Whoever waits for the dispatcher is told that there is nothing yet.
    IsGood-waits {ℓ} :
        {T : Type ℓ} (h : Handle) → (poll_dispatcher f a.session.state >>= wait f {A = T} h) ≢ panic
    IsGood-waits h =
        let (t, _, e) = poll_dispatcher-IsSent f a.session.state g.received g.alive in
        rw e (rw g.listening (λ p. cc))

    IsGood-poll_request {ℓ} :
        {T : Type ℓ} (decode : Delivery f → Outcome T) (q c : ℕ)
        → ((d : Delivery f) → a.session.state.oneshots c ≡ delivered d → decode d ≢ panic)
        → IsPending f a.session.state q c
        → poll_request f decode (handle f q c) a.session.state ≢ panic
    unfolding poll_request poll_cell
    IsGood-poll_request decode q c total (awaited _ e) = rw e (IsGood-waits (handle f q c))
    IsGood-poll_request decode q c total (answered d e _) =
        let this = total d e in rw e (ground arith)

    IsGood-poll_items {ℓ} :
        {T : Type ℓ} (decode : Delivery f → Outcome T) (h : Handle) (ds : List (Delivery f))
        (is_open : Bool)
        → All (λ d. decode d ≢ panic) ds
        → poll_items f decode ds is_open h a.session.state ≢ panic
    unfolding poll_items
    IsGood-poll_items decode h (d ∷ ds) is_open (total, _) = ground arith
    IsGood-poll_items decode h [] true total = IsGood-waits h
    IsGood-poll_items decode h [] false total = λ p. cc

  -- Two ends of a channel, each with a client and a server that is kept, and a port that may deliver whatever
  -- was posted late, in another order or twice. After any history, a poll of an end's dispatcher dispatches
  -- all that has arrived there, in order and without a panic, and does not complete; and the poll of any
  -- stream, open or not, that hands its items over undecoded does not panic.
  pub no-panic :
      (a b : End f)
      → Reach f a b
      → ((t : State f) × (dispatch_all f a.session.state.inbox
              (record (a.session.state) { inbox = [] })
            ≡ ok t)
          × (poll_dispatcher f a.session.state ≡ ok (t, false)))
        × ((h : Handle) → poll_stream f (λ d. ok d) h a.session.state ≢ panic)
  unfolding poll_stream
  no-panic a b r =
      let (g, _) = Reach-IsGood r in
      let (t, all, e) = poll_dispatcher-IsSent f a.session.state g.received g.alive in
      (
        (t, all, e ∙ ap (λ o. ok (t, not o)) g.listening),
        λ h.
            let stream = a.session.state.queues h.channel in
            IsGood-poll_items a g (λ d. ok d) h stream.items stream.is_open
              (undecoded stream.items),
      )
    where
      undecoded : (ds : List (Delivery f)) → All (λ d. ok d ≢ panic) ds
      undecoded [] = tt
      undecoded (d ∷ ds) = ((λ p. cc), undecoded ds)

  -- Two ends of a channel, each with a client and a server that is kept, and a port that may deliver whatever
  -- was posted late, in another order or twice. The history is one in which the client of the first end never
  -- takes the number of a request of its own that is live then. The poll of a future that is held there and
  -- not yet ready panics only if the decoder does so on the response in its channel.
  pub poll_request-safe {ℓ} :
      {T : Type ℓ} (decode : Delivery f → Outcome T) (a b : End f) (q c : ℕ) (r : Reach f a b)
      → Duo.Unshared f r
      → a.session.live c ≡ some q
      → ((d : Delivery f) → a.session.state.oneshots c ≡ delivered d → decode d ≢ panic)
      → poll_request f decode (handle f q c) a.session.state ≢ panic
  poll_request-safe decode a b q c r unshared live response =
      IsGood-poll_request a (Reach-IsGood r).0 decode q c response
        ((Reach-Inv r unshared).pending q c live)
