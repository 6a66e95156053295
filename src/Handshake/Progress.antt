-- ===== src/Handshake/Progress.antt =====
-- From every state of the handshake of web-rpc/src/interface.rs, both ends can still return.
use web_rpc.Prelude.{◌≡◌, refl, ◌∙◌, subst, inl, inr, true, List, [], ◌∷◌, ◌++◌, Bool-cases}
use web_rpc.Handshake.Interface.{
  Packet, null, array, End, on_event, receive, Step, installed, polled, finished, arrived, swapped,
  Reach, here, next,
}
use web_rpc.Handshake.Packets.{has_null, has_null-receive}
use web_rpc.Handshake.Arrival.{deliver_heard, on_event_null, Reach-Both}

module _ (Message : Type 0) where
  -- Later states of two ends.
  pub data Later (a b : End Message) : End Message → End Message → Type 0 where
    now : Later a b a b
    then' : {c d x y : End Message} → Later a b c d → Step Message c d x y → Later a b x y

  after : {a b c d x y : End Message} → Later a b c d → Later c d x y → Later a b x y
  after l now = l
  after l (then' m s) = then' (after l m) s

  exchange : {a b c d : End Message} → Later a b c d → Later b a d c
  exchange now = now
  exchange (then' l s) = then' (exchange l) (swapped s)

  Reach-later : {a b c d : End Message} → Reach Message a b → Later a b c d → Reach Message c d
  Reach-later r now = r
  Reach-later r (then' l s) = next (Reach-later r l) s

  Reach-exchange : {a b : End Message} → Reach Message a b → Reach Message b a
  Reach-exchange here = here
  Reach-exchange (next r s) = next (Reach-exchange r) (swapped s)

  -- An end that listens takes what is on its way, up to the first `null`, and is signalled.
  drained :
      (ps : List (Packet Message)) (a b : End Message)
      → a.wire ≡ ps
      → a.listening ≡ true
      → has_null Message ps ≡ true
      → (c : End Message) × Later a b c b
        × (c.signalled ≡ true)
        × (c.listening ≡ true)
        × (c.returned ≡ a.returned)
  unfolding has_null on_event
  drained [] a b e on h = cc
  drained (null ∷ ps) a b e on h =
      let heard =
        deliver_heard Message null (record a { wire = ps }) on
        ∙ on_event_null Message (record a { wire = ps }) in
      (
        record a { wire = ps; signalled = true },
        subst (λ c. Later a b c b) heard (then' now (arrived null ps e)),
        refl,
        on,
        refl,
      )
  drained (array m ∷ ps) a b e on h =
      let a' : End Message = record a { wire = ps; queue = a.queue ++ m ∷ [] } in
      let heard = deliver_heard Message (array m) (record a { wire = ps }) on in
      let first : Later a b a' b =
        subst (λ c. Later a b c b) heard (then' now (arrived (array m) ps e)) in
      let (c, l, s, o, r) = drained ps a' b refl on h in (c, after first l, s, o, r)

  -- An end that listens can be signalled by an end that listens.
  signalled :
      (a b : End Message)
      → Reach Message a b
      → a.listening ≡ true
      → b.listening ≡ true
      → (c : End Message) × Later a b c b
        × (c.signalled ≡ true)
        × (c.listening ≡ true)
        × (c.returned ≡ a.returned)
  signalled a b r on talks = elim (Bool-cases a.signalled) [
    | inl s ↦ (a, now, s, on, refl)
    | inr waits ↦ elim (Bool-cases b.returned) [
      | inl done ↦ elim ((Reach-Both Message r).0.reached done) [
        | inl s ↦ (a, now, s, on, refl)
        | inr coming ↦ drained a.wire a b refl on coming
      ]
      | inr running ↦
          let (c, l, s, o, same) =
            drained (a.wire ++ null ∷ []) (receive Message null a) b refl on
              (has_null-receive Message a.wire) in
          (c, after (then' now (swapped (polled talks running))) l, s, o, same)
    ]
  ]

  -- An end can return where both listen.
  returns :
      (a b : End Message)
      → Reach Message a b
      → a.listening ≡ true
      → b.listening ≡ true
      → (c d : End Message) × Later a b c d
        × (c.returned ≡ true)
        × (c.listening ≡ true)
        × (d.listening ≡ true)
        × (d.returned ≡ b.returned)
  returns a b r on talks = elim (Bool-cases a.returned) [
    | inl done ↦ (a, b, now, done, on, talks, refl)
    | inr running ↦
        let (c, l, s, o, same) = signalled a b r on talks in
        (
          record c { returned = true },
          receive Message null b,
          then' l (finished s (same ∙ running)),
          refl,
          o,
          talks,
          refl,
        )
  ]

  -- An end can begin to listen, whatever the other one does.
  listens :
      (a b : End Message)
      → (c : End Message) × Later a b c b × (c.listening ≡ true) × (c.returned ≡ a.returned)
  listens a b = elim (Bool-cases a.listening) [
    | inl on ↦ (a, now, on, refl)
    | inr off ↦ (record a { listening = true }, then' now (installed off), refl, refl)
  ]

  -- From every state that two ends reach there is a continuation in which both have returned: no order of
  -- polls, losses and posts before it brings the handshake to a deadlock.
  pub Reach-returned :
      (a b : End Message)
      → Reach Message a b
      → (c d : End Message) × Later a b c d × (c.returned ≡ true) × (d.returned ≡ true)
  Reach-returned a b r =
      let (a₁, l₁, on, _) = listens a b in
      let (b₁, l₂, talks, _) = listens b a₁ in
      let heard = after l₁ (exchange l₂) in
      let (a₂, b₂, l₃, done, on₂, talks₂, _) = returns a₁ b₁ (Reach-later r heard) on talks in
      let both = after heard l₃ in
      let (b₃, a₃, l₄, done', _, _, same) =
        returns b₂ a₂ (Reach-exchange (Reach-later r both)) talks₂ on₂ in
      (a₃, b₃, after both (exchange l₄), same ∙ done, done')
