-- ===== src/Session/Message.antt =====
-- web-rpc/src/lib.rs: messages as Javascript arrays, and how they are posted and taken apart.
use web_rpc.Prelude.{Text, List, [], ◌∷◌, Outcome, ok, panic}
use web_rpc.Session.Formats.{Formats, MessageHeader}

module _ (f : Formats) where
  open f use {Js, write_header}

  -- An element of an array: an `ArrayBuffer` with its bytes, or any other value.
  pub data Item : Type 0 where
    buffer : Text → Item
    value : Js → Item

  abbrev pub Message : Type 0
  Message = List Item

  -- One call of `Port::post_message`: the message and its transfer list.
  pub record Post : Type 0 where
    pub message : Message
    pub transfer : List Item

  abbrev to_buffer : Text → Item
  to_buffer bytes = buffer bytes

  -- `shift` gives `undefined` on an empty array, which is no `ArrayBuffer` either.
  unfoldable pub take_bytes : Message → Outcome (Text × Message)
  take_bytes [] = panic
  take_bytes (buffer bytes ∷ rest) = ok (bytes, rest)
  take_bytes (value v ∷ rest) = panic

  unfoldable pub post_header : MessageHeader → Post
  post_header h =
      let header = to_buffer (write_header h) in
      record { message = header ∷ []; transfer = header ∷ [] }

  -- The payload is given as its postcard bytes.
  unfoldable pub post_message : MessageHeader → Text → List Item → List Item → Post
  post_message h payload post_args transfer_args =
      let header = to_buffer (write_header h) in
      let body = to_buffer payload in
      record { message = header ∷ body ∷ post_args; transfer = header ∷ body ∷ transfer_args }
