-- ===== src/Handshake/Arrival.antt =====
-- What arrives at the two ends of web-rpc/src/interface.rs, and what they keep to over time.
use web_rpc.Prelude.{
  ◌≡◌, refl, sym, ap, ◌∙◌, subst, ◌≢◌, inl, inr, Bool, true, false, List, [], ◌∷◌, ◌++◌,
  append_assoc, if◌then◌else◌, Bool-cases,
}
use web_rpc.Handshake.Interface.{
  Packet, null, array, End, on_event, deliver, start, Step, installed, polled, finished, sent,
  arrived, swapped, Reach, here, next,
}
use web_rpc.Handshake.Packets.{arrays, has_null}
use web_rpc.Handshake.Posting.{Half, Both, installed-Both, polled-Both, finished-Both, sent-Both}

module _ (Message : Type 0) where
  pub deliver_heard :
      (p : Packet Message) (a : End Message)
      → a.listening ≡ true
      → deliver Message p a ≡ on_event Message p a
  unfolding deliver
  deliver_heard p a on = ap (λ b. if b then on_event Message p a else a) on

  deliver_lost :
      (p : Packet Message) (a : End Message) → a.listening ≡ false → deliver Message p a ≡ a
  unfolding deliver
  deliver_lost p a off = ap (λ b. if b then on_event Message p a else a) off

  pub on_event_null : (a : End Message) → on_event Message null a ≡ record a { signalled = true }
  unfolding on_event
  on_event_null a = elim (Bool-cases a.signalled) [
    | inl on ↦
        ap (λ b. if b then a else record a { signalled = true }) on
        ∙ ap (λ b. record a { signalled = b }) on
    | inr off ↦ ap (λ b. if b then a else record a { signalled = true }) off
  ]

  -- What arrives had an end that listens behind it.
  sender_listens :
      {a b : End Message} (p : Packet Message) (ps : List (Packet Message))
      → a.wire ≡ p ∷ ps
      → Half Message a b
      → b.listening ≡ true
  sender_listens {a} {b} p ps e h = elim (Bool-cases b.listening) [
    | inl on ↦ on
    | inr off ↦ absurd (let gone = h.silent off in cc)
  ]

  -- The other end sees no difference when a packet arrives.
  arrived-sender :
      {a b : End Message} (ps : List (Packet Message)) (signalled : Bool) (queue : List Message)
      → Half Message b a
      → Half Message b (record a { wire = ps; signalled = signalled; queue = queue })
  arrived-sender ps signalled queue k = record {
    silent = k.silent;
    heard = k.heard;
    alive = k.alive;
    ended = k.ended;
    kept = k.kept;
    unused = k.unused;
    reached = k.reached;
  }

  arrived_null-Both :
      {a b : End Message} (ps : List (Packet Message))
      → a.wire ≡ null ∷ ps
      → Both Message a b
      → a.listening ≡ true
      → Both Message (record a { wire = ps; signalled = true }) b
  unfolding arrays
  arrived_null-Both {a} {b} ps e (h, k) on =
      let talks = sender_listens null ps e h in
      (
        record {
          silent = λ off. cc;
          heard = λ s. talks;
          alive = λ s. on;
          ended = λ r. refl;
          kept = ap (λ xs. a.queue ++ arrays Message xs) (sym e) ∙ h.kept;
          unused = h.unused;
          reached = λ r. inl refl;
        },
        arrived-sender ps true a.queue k,
      )

  arrived_array-Both :
      {a b : End Message} (m : Message) (ps : List (Packet Message))
      → a.wire ≡ array m ∷ ps
      → Both Message a b
      → Both Message (record a { wire = ps; queue = a.queue ++ m ∷ [] }) b
  unfolding arrays has_null
  arrived_array-Both {a} {b} m ps e (h, k) =
      let talks = sender_listens (array m) ps e h in
      (
        record {
          silent = λ off. cc;
          heard = h.heard;
          alive = h.alive;
          ended = h.ended;
          kept =
              append_assoc a.queue (m ∷ []) (arrays Message ps)
              ∙ ap (λ xs. a.queue ++ arrays Message xs) (sym e)
              ∙ h.kept;
          unused = h.unused;
          reached = λ r. elim (h.reached r) [
            | inl on ↦ inl on
            | inr some_null ↦ inr (ap (has_null Message) (sym e) ∙ some_null)
          ];
        },
        arrived-sender ps a.signalled (a.queue ++ m ∷ []) k,
      )

  -- While an end does not listen, the other one has not returned, and has posted no array.
  unheard : {a b : End Message} → a.listening ≡ false → Both Message a b → b.returned ≡ true → ⊥
  unheard off (h, k) r = let on = k.heard (k.ended r) in cc

  append-ne : (xs ys : List Message) (m : Message) → xs ++ m ∷ ys ≢ []
  append-ne [] ys m h = cc
  append-ne (x ∷ xs) ys m h = cc

  lost_array :
      {a b : End Message} (m : Message) (ps : List (Packet Message))
      → a.listening ≡ false
      → a.wire ≡ array m ∷ ps
      → Both Message a b
      → ⊥
  unfolding arrays
  lost_array {a} {b} m ps off e (h, k) = elim (Bool-cases b.returned) [
    | inl on ↦ unheard off (h, k) on
    | inr running ↦
        append-ne a.queue (arrays Message ps) m
          (ap (λ xs. a.queue ++ arrays Message xs) (sym e) ∙ h.kept ∙ h.unused running)
  ]

  lost_null-Both :
      {a b : End Message} (ps : List (Packet Message))
      → a.listening ≡ false
      → a.wire ≡ null ∷ ps
      → Both Message a b
      → Both Message (record a { wire = ps }) b
  unfolding arrays
  lost_null-Both {a} {b} ps off e (h, k) =
      let talks = sender_listens null ps e h in
      (
        record {
          silent = λ quiet. cc;
          heard = h.heard;
          alive = h.alive;
          ended = h.ended;
          kept = ap (λ xs. a.queue ++ arrays Message xs) (sym e) ∙ h.kept;
          unused = h.unused;
          reached = λ r. absurd (unheard off (h, k) r);
        },
        arrived-sender ps a.signalled a.queue k,
      )

  arrived-Both :
      {a b : End Message} (p : Packet Message) (ps : List (Packet Message))
      → a.wire ≡ p ∷ ps
      → Both Message a b
      → Both Message (deliver Message p (record a { wire = ps })) b
  unfolding on_event
  arrived-Both {a} {b} null ps e v = elim (Bool-cases a.listening) [
    | inl on ↦
        subst (λ x. Both Message x b)
          (sym (
            deliver_heard null (record a { wire = ps }) on
            ∙ on_event_null (record a { wire = ps })))
          (arrived_null-Both ps e v on)
    | inr off ↦
        subst (λ x. Both Message x b) (sym (deliver_lost null (record a { wire = ps }) off))
          (lost_null-Both ps off e v)
  ]
  arrived-Both {a} {b} (array m) ps e v = elim (Bool-cases a.listening) [
    | inl on ↦
        subst (λ x. Both Message x b) (sym (deliver_heard (array m) (record a { wire = ps }) on))
          (arrived_array-Both m ps e v)
    | inr off ↦ absurd (lost_array m ps off e v)
  ]

  Step-Both : {a b c d : End Message} → Step Message a b c d → Both Message a b → Both Message c d
  Step-Both (installed off) v = installed-Both Message v
  Step-Both (polled on running) v = polled-Both Message on v
  Step-Both (finished on running) v = finished-Both Message on v
  Step-Both (sent m on) v = sent-Both Message m on v
  Step-Both (arrived p ps e) v = arrived-Both p ps e v
  Step-Both (swapped s) (h, k) = let (x, y) = Step-Both s (k, h) in (y, x)

  start-Half : Half Message (start Message) (start Message)
  unfolding arrays
  start-Half = record {
    silent = λ off. refl;
    heard = λ s. cc;
    alive = λ s. cc;
    ended = λ r. cc;
    kept = refl;
    unused = λ r. refl;
    reached = λ r. cc;
  }

  pub Reach-Both : {a b : End Message} → Reach Message a b → Both Message a b
  Reach-Both here = (start-Half, start-Half)
  Reach-Both (next r s) = Step-Both s (Reach-Both r)
