-- ===== src/Handshake/Interface.antt =====
-- web-rpc/src/interface.rs, `Interface::new` at both ends of a channel, and the messages between them.
use web_rpc.Prelude.{Bool, true, false, List, [], ◌∷◌, ◌++◌, ◌≡◌, if◌then◌else◌}

module _ (Message : Type 0) where
  -- What is posted on the port: `null` by the handshake, and arrays by the users of the interface.
  pub data Packet : Type 0 where
    null : Packet
    array : Message → Packet

  -- One end: the packets on their way to it, whether its listener is installed, whether `ready_tx` was
  -- taken and sent, whether `new` has returned, what waits in `messages_rx`, and what the end's users
  -- have posted.
  pub record End : Type 0 where
    pub wire : List Packet
    pub listening : Bool
    pub signalled : Bool
    pub returned : Bool
    pub queue : List Message
    pub posted : List Message

  -- The closure of the event listener.
  unfoldable pub on_event : Packet → End → End
  on_event (array m) e = record e { queue = e.queue ++ m ∷ [] }
  on_event null e = if e.signalled then e else record e { signalled = true }

  -- An event that no listener hears is lost.
  unfoldable pub deliver : Packet → End → End
  unfolding on_event
  deliver p e = if e.listening then on_event p e else e

  -- `Port::post_message`, at the end that receives.
  abbrev pub receive : Packet → End → End
  receive p e = record e { wire = e.wire ++ p ∷ [] }

  abbrev pub start : End
  start = record {
    wire = [];
    listening = false;
    signalled = false;
    returned = false;
    queue = [];
    posted = [];
  }

  -- What the first of two ends may do next.
  pub data Step : End → End → End → End → Type 0 where
    -- `EventListener::new`.
    installed : {a b : End} → a.listening ≡ false → Step a b (record a { listening = true }) b
    -- A round of the polling loop, before `new` returns.
    polled : {a b : End} → a.listening ≡ true → a.returned ≡ false → Step a b a (receive null b)
    -- `ready_rx` resolves: one last post, and `new` returns.
    finished :
        {a b : End}
        → a.signalled ≡ true
        → a.returned ≡ false
        → Step a b (record a { returned = true }) (receive null b)
    -- A user of the interface posts a message.
    sent :
        {a b : End} (m : Message)
        → a.returned ≡ true
        → Step a b (record a { posted = a.posted ++ m ∷ [] }) (receive (array m) b)
    -- The next packet arrives.
    arrived :
        {a b : End} (p : Packet) (ps : List Packet)
        → a.wire ≡ p ∷ ps
        → Step a b (deliver p (record a { wire = ps })) b
    -- The same of the other end.
    swapped : {a b c d : End} → Step b a d c → Step a b c d

  pub data Reach : End → End → Type 0 where
    here : Reach start start
    next : {a b c d : End} → Reach a b → Step a b c d → Reach c d
