-- ===== src/Handshake/Posting.antt =====
-- What the two ends of web-rpc/src/interface.rs keep to while they poll, return and post.
use web_rpc.Prelude.{
  ◌≡◌, refl, sym, ap, ◌∙◌, inr, ◌⊎◌, Bool, true, false, List, [], ◌∷◌, ◌++◌, append_assoc,
}
use web_rpc.Handshake.Interface.{Packet, null, array, End, receive}
use web_rpc.Handshake.Packets.{
  arrays, has_null, arrays-receive_null, arrays-receive_array, has_null-receive, has_null-more,
}

module _ (Message : Type 0) where
  -- What holds of the packets to `a`, which come from `b`.
  pub record Half (a b : End Message) : Type 0 where
    pub silent : b.listening ≡ false → a.wire ≡ []
    pub heard : a.signalled ≡ true → b.listening ≡ true
    pub alive : a.signalled ≡ true → a.listening ≡ true
    pub ended : a.returned ≡ true → a.signalled ≡ true
    pub kept : a.queue ++ arrays Message a.wire ≡ b.posted
    pub unused : b.returned ≡ false → b.posted ≡ []
    pub reached : b.returned ≡ true → (a.signalled ≡ true) ⊎ (has_null Message a.wire ≡ true)

  abbrev pub Both : End Message → End Message → Type 0
  Both a b = Half a b × Half b a

  -- An end that has more on its way from an end that listens.
  pub receive-Half :
      {a b : End Message} (p : Packet Message) (posted : List Message) (returned : Bool)
      → a.listening ≡ true
      → Half b a
      → (b.queue ++ arrays Message (b.wire ++ p ∷ []) ≡ posted)
      → (returned ≡ false → posted ≡ [])
      → (returned ≡ true → (b.signalled ≡ true) ⊎ (has_null Message (b.wire ++ p ∷ []) ≡ true))
      → Half (receive Message p b) (record a { posted = posted; returned = returned })
  receive-Half {a} {b} p posted returned on k kept unused reached = record {
    silent = λ off. cc;
    heard = k.heard;
    alive = k.alive;
    ended = k.ended;
    kept = kept;
    unused = unused;
    reached = reached;
  }

  pub installed-Both : {a b : End Message} → Both a b → Both (record a { listening = true }) b
  installed-Both (h, k) = (
    record {
      silent = h.silent;
      heard = h.heard;
      alive = λ s. refl;
      ended = h.ended;
      kept = h.kept;
      unused = h.unused;
      reached = h.reached;
    },
    record {
      silent = λ off. cc;
      heard = λ s. refl;
      alive = k.alive;
      ended = k.ended;
      kept = k.kept;
      unused = k.unused;
      reached = k.reached;
    },
  )

  pub polled-Both :
      {a b : End Message} → a.listening ≡ true → Both a b → Both a (receive Message null b)
  polled-Both {a} {b} on (h, k) = (
    record {
      silent = h.silent;
      heard = h.heard;
      alive = h.alive;
      ended = h.ended;
      kept = h.kept;
      unused = h.unused;
      reached = h.reached;
    },
    receive-Half null a.posted a.returned on k (rw (arrays-receive_null Message b.wire) k.kept)
        k.unused (λ r. inr (has_null-receive Message b.wire)),
  )

  pub finished-Both :
      {a b : End Message}
      → a.signalled ≡ true
      → Both a b
      → Both (record a { returned = true }) (receive Message null b)
  finished-Both {a} {b} on (h, k) = (
    record {
      silent = h.silent;
      heard = h.heard;
      alive = h.alive;
      ended = λ r. on;
      kept = h.kept;
      unused = h.unused;
      reached = h.reached;
    },
    receive-Half null a.posted true (h.alive on) k (rw (arrays-receive_null Message b.wire) k.kept)
        (λ r. cc) (λ r. inr (has_null-receive Message b.wire)),
  )

  pub sent-Both :
      {a b : End Message} (m : Message)
      → a.returned ≡ true
      → Both a b
      → Both (record a { posted = a.posted ++ m ∷ [] }) (receive Message (array m) b)
  sent-Both {a} {b} m on (h, k) = (
    record {
      silent = h.silent;
      heard = h.heard;
      alive = h.alive;
      ended = h.ended;
      kept = h.kept;
      unused = h.unused;
      reached = h.reached;
    },
    receive-Half (array m) (a.posted ++ m ∷ []) a.returned (h.alive (h.ended on)) k
        (rw (arrays-receive_array Message b.wire m) (
          sym (append_assoc b.queue (arrays Message b.wire) (m ∷ []))
          ∙ ap (λ xs. xs ++ m ∷ []) k.kept))
        (λ r. cc) (λ r. rw (has_null-more Message b.wire m) (k.reached r)),
  )
