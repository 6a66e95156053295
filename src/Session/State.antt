-- ===== src/Session/State.antt =====
-- The state that a client, its futures and the dispatcher of one interface share
-- (`client::State` of web-rpc/src/client.rs, and the locals of `assemble` in web-rpc/src/lib.rs).
use web_rpc.Prelude.{
  ℕ, Text, ◌≡◌, ◌≢◌, refl, ap, arith, Bool, false, Option, none, some, List, ◌==◌, if◌then◌else◌,
}
use web_rpc.Prelude.Dict.{Dict, lookup, insert, remove}
use web_rpc.Session.Formats.{Formats}
use web_rpc.Session.Message.{Item, Message, Post}

abbrev pub update {ℓ} : {A : Type ℓ} → (ℕ → A) → ℕ → A → ℕ → A
update g k v j = if k == j then v else g j

pub update-other {ℓ} : {A : Type ℓ} (g : ℕ → A) (k j : ℕ) (v : A) → k ≢ j → update g k v j ≡ g j
update-other g k j v h = ground arith

pub update_self {ℓ} : {A : Type ℓ} (g : ℕ → A) (k : ℕ) (v : A) → update g k v k ≡ v
update_self g k v = ground arith

module _ (f : Formats) where
  open f use {Response}

  abbrev pub Delivery : Type 0
  Delivery = Response × List (Item f)

  -- A oneshot channel: its sender is held, has sent, or was dropped unused.
  pub data Oneshot : Type 0 where
    waiting : Oneshot
    delivered : Delivery → Oneshot
    closed : Oneshot

  -- An unbounded channel: what is buffered, and whether its sender is still held.
  pub record Queue : Type 0 where
    pub items : List Delivery
    pub is_open : Bool

  -- The maps hold senders, named by the channel that they feed.
  pub record State : Type 0 where
    pub sequence : ℕ
    pub callbacks : Dict ℕ
    pub stream_callbacks : Dict ℕ
    pub oneshots : ℕ → Oneshot
    pub queues : ℕ → Queue
    pub next_channel : ℕ
    pub inbox : List (Message f)
    pub inbox_open : Bool
    pub requests : List (ℕ × Text × Message f)
    pub aborts : List ℕ
    pub server_alive : Bool
    pub outbox : List (Post f)

  -- A sender is dropped when the map forgets or replaces it.
  abbrev pub drop_sender : Option ℕ → (ℕ → Oneshot) → ℕ → Oneshot
  drop_sender none cells = cells
  drop_sender (some c) cells = update cells c closed

  abbrev pub drop_stream_sender : Option ℕ → (ℕ → Queue) → ℕ → Queue
  drop_stream_sender none cells = cells
  drop_stream_sender (some c) cells = update cells c (record (cells c) { is_open = false })

  pub drop_sender-other :
      (o : Option ℕ) (cells : ℕ → Oneshot) (c : ℕ) → o ≢ some c → drop_sender o cells c ≡ cells c
  drop_sender-other none cells c h = refl
  drop_sender-other (some b) cells c h = update-other cells b c closed (λ e. h (ap some e))

  unfoldable pub insert_callback : ℕ → ℕ → State → State
  insert_callback seq c s = record s {
    callbacks = insert seq c s.callbacks;
    oneshots = drop_sender (lookup seq s.callbacks) s.oneshots;
  }

  unfoldable pub remove_callback : ℕ → State → State
  remove_callback seq s = record s {
    callbacks = remove seq s.callbacks;
    oneshots = drop_sender (lookup seq s.callbacks) s.oneshots;
  }

  unfoldable pub insert_stream_callback : ℕ → ℕ → State → State
  insert_stream_callback seq c s = record s {
    stream_callbacks = insert seq c s.stream_callbacks;
    queues = drop_stream_sender (lookup seq s.stream_callbacks) s.queues;
  }

  unfoldable pub remove_stream_callback : ℕ → State → State
  remove_stream_callback seq s = record s {
    stream_callbacks = remove seq s.stream_callbacks;
    queues = drop_stream_sender (lookup seq s.stream_callbacks) s.queues;
  }
