-- ===== src/Session/Replies.antt =====
-- Which future an inbound response reaches, and what a posted request is at the other end.
use web_rpc.Prelude.{
  ℕ, ◌≡◌, ◌≢◌, refl, sym, ap, true, none, some, List, [], ◌∷◌, ◌++◌, Outcome, ok, panic, arith,
  ◌>>=◌, if◌then◌else◌,
}
use web_rpc.Prelude.Dict.{lookup, remove, lookup-remove}
use web_rpc.Session.Formats.{Formats, request, response, abort}
use web_rpc.Session.Message.{Item, Message, Post, post_message, post_header, take_bytes}
use web_rpc.Session.State.{State, Delivery, delivered, update-other, update_self, remove_callback}
use web_rpc.Session.Dispatcher.{dispatch, on_header, on_response, on_request, on_abort, deliver}
use web_rpc.Session.Client.{Handle, ready, poll_request, poll_cell, fire_request, send, disarm}

module _ (f : Formats) where
  abbrev pub reply : ℕ → f.Response → List (Item f) → List (Item f) → Message f
  reply q r xs ys = (post_message f (response q) (f.write_response r) xs ys).message

  after_reply : ℕ → Delivery f → State f → State f
  after_reply q d s = record s {
    callbacks = remove q s.callbacks;
    oneshots = deliver f (lookup q s.callbacks) d s.oneshots;
  }

  dispatch-reply :
      (q : ℕ) (r : f.Response) (xs ys : List (Item f)) (s : State f)
      → dispatch f (reply q r xs ys) s ≡ ok (after_reply q (r, xs) s)
  unfolding dispatch on_header on_response take_bytes post_message after_reply
  dispatch-reply q r xs ys s = rw (f.read-write_header (response q)) (rw (f.read-write_response r))

  -- A response that the other end posts for an awaited request goes into the channel of that request, and its
  -- future is then ready with the response and the Javascript values behind it. The request is awaited no
  -- more; every other request is, as before; no other channel of a request changes, and nothing else of the
  -- interface: streams and their channels, what is queued for the server, and what has been posted.
  pub reply-reaches {ℓ} :
      {T : Type ℓ} (decode : Delivery f → Outcome T) (h : Handle) (r : f.Response)
      (xs ys : List (Item f)) (s : State f)
      → lookup h.number s.callbacks ≡ some h.channel
      → (t : State f) × (dispatch f (reply h.number r xs ys) s ≡ ok t)
        × (t.oneshots h.channel ≡ delivered (r, xs))
        × (poll_request f decode h t ≡ (decode (r, xs) >>= λ x. ok (ready x, disarm h, t)))
        × ((c : ℕ) → c ≢ h.channel → t.oneshots c ≡ s.oneshots c)
        × (lookup h.number t.callbacks ≡ none)
        × ((n : ℕ) → n ≢ h.number → lookup n t.callbacks ≡ lookup n s.callbacks)
        × (t ≡ record s { callbacks = t.callbacks; oneshots = t.oneshots })
  unfolding poll_request poll_cell after_reply
  reply-reaches decode h r xs ys s e = (
    after_reply h.number (r, xs) s,
    dispatch-reply h.number r xs ys s,
    rw e (update_self s.oneshots h.channel (delivered (r, xs))),
    rw e (rw (update_self s.oneshots h.channel (delivered (r, xs)))),
    (λ c ne. rw e (update-other s.oneshots h.channel c (delivered (r, xs)) (λ k. ne (sym k)))),
    ground (arith, lookup-remove h.number h.number s.callbacks),
    (λ n ne. ground (arith, lookup-remove h.number n s.callbacks)),
    refl,
  )

  fired-forgets :
      (h : Handle) (s : State f)
      → h.active ≡ true
      → lookup h.number (fire_request f h s).1.callbacks ≡ none
  unfolding fire_request remove_callback
  fired-forgets h s on = ground (arith, lookup-remove h.number h.number s.callbacks)

  -- A response for a request whose future was dropped reaches nobody: no channel changes.
  pub reply-after-fire :
      (h : Handle) (r : f.Response) (xs ys : List (Item f)) (s : State f)
      → h.active ≡ true
      → let dropped = (fire_request f h s).1 in
        (t : State f) × (dispatch f (reply h.number r xs ys) dropped ≡ ok t)
        × (t.oneshots ≡ dropped.oneshots)
        × (t.queues ≡ dropped.queues)
  unfolding fire_request remove_callback after_reply
  reply-after-fire h r xs ys s on = (
    after_reply h.number (r, xs) (fire_request f h s).1,
    dispatch-reply h.number r xs ys (fire_request f h s).1,
    ap (λ o. deliver f o (r, xs) (fire_request f h s).1.oneshots) (fired-forgets h s on),
    refl,
  )

  -- A request that one end sends is queued for the server of the other end with the number that it
  -- took, its payload and the Javascript values behind it, behind what is queued; nothing else of
  -- that end changes. Where the server was dropped, the dispatcher panics.
  pub dispatch-send :
      (r : f.Request) (xs ys : List (Item f)) (s t : State f)
      → (p : Post f) × ((send f r xs ys s).1.outbox ≡ s.outbox ++ p ∷ [])
        × (dispatch f p.message t ≡ (
            if t.server_alive
            then ok (record t { requests = t.requests ++ (s.sequence, f.write_request r, xs) ∷ [] })
            else panic))
  unfolding send dispatch on_header on_request take_bytes post_message
  dispatch-send r xs ys s t = (
    post_message f (request s.sequence) (f.write_request r) xs ys,
    refl,
    rw (f.read-write_header (request s.sequence)),
  )

  -- Dropping the future of a request posts one message, which makes the other end's dispatcher queue
  -- an abort of that number for its server if it has one, and does nothing else there. A future that
  -- was ready, or was dropped, posts nothing.
  pub dispatch-fire :
      (h : Handle) (s t : State f)
      → (p : Post f) × ((fire_request f h s).1.outbox
          ≡ (if h.active then s.outbox ++ p ∷ [] else s.outbox))
        × (dispatch f p.message t
            ≡ ok (if t.server_alive then record t { aborts = t.aborts ++ h.number ∷ [] } else t))
  unfolding fire_request remove_callback dispatch on_header on_abort take_bytes post_header
  dispatch-fire h s t =
      (post_header f (abort h.number), ground arith, rw (f.read-write_header (abort h.number)))
