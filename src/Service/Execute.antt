-- ===== src/Service/Execute.antt =====
-- web-rpc-macro/src/lib.rs, the bodies that `struct_server` generates: what a request's future may do
-- next, given whether its abort channel has fired.
use web_rpc.Prelude.{◌≡◌, Bool, true, false, none, some, List, [], ◌∷◌}
use web_rpc.Session.Formats.{Formats}
use web_rpc.Service.Task.{
  Outgoing, ExecuteResult, reply, stream_complete, StreamMessage, notify, value, stream, Execution,
}

module _ (f : Formats) where
  -- The end of a future: what it puts on the stream channel last, and its result. The environment
  -- decides what the implementation returns and which ready branch of a `select!` is taken.
  pub data Ends (e : Execution f) (fired : Bool)
      : List (StreamMessage f) → ExecuteResult f → Type 0 where
    -- `#call;` or `#call.await;`, then `Response(None)`.
    notified : (is_async : Bool) → e.body ≡ notify is_async → Ends e fired [] (reply none)
    -- The implementation's value, encoded.
    returned :
        (is_async : Bool) (o : Outgoing f)
        → e.body ≡ value is_async
        → Ends e fired [] (reply (some o))
    -- `_ = __abort_rx => None`, of an `async` method alone.
    cancelled : e.body ≡ value true → fired ≡ true → Ends e fired [] (reply none)
    -- The items ran out, or the abort came: either way one end marker.
    forwarded :
        (is_async : Bool)
        → e.body ≡ stream is_async
        → e.forwarding ≡ true
        → Ends e fired ((e.number, none) ∷ []) stream_complete
    -- The abort of an `async` streaming method that has not handed over its items.
    never_opened :
        e.body ≡ stream true
        → fired ≡ true
        → e.forwarding ≡ false
        → Ends e fired ((e.number, none) ∷ []) stream_complete
