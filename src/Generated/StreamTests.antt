-- ===== src/Generated/StreamTests.antt =====
-- A stream of the third method of the trait in Generated/Tests: its server sends one item and an end.
use web_rpc.Prelude.{◌≡◌, refl, true, false, none, some, [], ◌∷◌, ◌++◌, map, ok}
use web_rpc.Prelude.Dict.{insert, lookup, remove}
use web_rpc.Session.Formats.{Formats}
use web_rpc.Session.State.{State}
use web_rpc.Session.Dispatcher.{dispatch_all}
use web_rpc.Session.Drain.{received}
use web_rpc.Session.World
use web_rpc.Session.Live
use web_rpc.Service.Task
use web_rpc.Service.Task.{
  ExecuteResult, on_request, on_execution, on_stream_message, stream_post, forget,
}
use web_rpc.Service.Execute.{forwarded}
use web_rpc.Service.Steps
use web_rpc.Exchange.Posts.{sent_to}
use web_rpc.Exchange.Streaming.{messages}
use web_rpc.Wire.Value.{js}
use web_rpc.Wire.Tests.{numbers}
use web_rpc.Generated.Enums.{Nth, first, later}
use web_rpc.Generated.Client.{client_request}
use web_rpc.Generated.Server.{Outgoing, outgoing, streamed, method_of}
use web_rpc.Generated.Whole.{formats, to_item, executed, unpack_delivery, posted}
use web_rpc.Generated.Streams.{remote_stream, arriving, remote_stream-yields}
use web_rpc.Generated.Tests.{list, methods, bytes, store}

abbrev wire : Formats
wire = formats numbers bytes

abbrev third : Nth numbers list methods
third = later (later first)

abbrev nine : Outgoing numbers methods
nine = outgoing numbers third (js false tt) 9

abbrev asked : Steps.World wire
asked = Steps.requested wire (0, 2 ∷ [], []) (Task.stream false) (Steps.start wire)

abbrev item_sent : Steps.World wire
item_sent = record asked {
  task = record (asked.task) {
    stream_queue = asked.task.stream_queue ++ (0, some (posted numbers bytes nine)) ∷ [];
  };
  sent = asked.sent ++ (0, some (posted numbers bytes nine)) ∷ [];
}

abbrev ended : Steps.World wire
ended = Steps.end_execution wire 0 [] ((0, none) ∷ []) ExecuteResult.stream_complete item_sent

abbrev item_posted : Steps.World wire
item_posted = record ended {
  task =
      on_stream_message wire (0, some (posted numbers bytes nine))
        (record (ended.task) { stream_queue = (0, none) ∷ [] });
}

abbrev all_posted : Steps.World wire
all_posted = record item_posted {
  task = on_stream_message wire (0, none) (record (item_posted.task) { stream_queue = [] });
}

all_posted-Reach : Steps.Reach wire (Steps.start wire) all_posted
unfolding on_request on_execution on_stream_message stream_post forget lookup insert remove
all_posted-Reach =
    Steps.next
      (Steps.next
        (Steps.next
          (Steps.next (Steps.next Steps.here (Steps.request (0, 2 ∷ [], []) (Task.stream false))) (
            Steps.item [] []
              (record { number = 0; abort = 0; body = Task.stream false; forwarding = true }) false
              (posted numbers bytes nine) refl refl refl))
          (Steps.ended [] []
            (record { number = 0; abort = 0; body = Task.stream false; forwarding = true })
            ((0, none) ∷ []) ExecuteResult.stream_complete refl (forwarded false refl refl)))
        (Steps.posted (0, some (posted numbers bytes nine)) ((0, none) ∷ []) refl))
      (Steps.posted (0, none) [] refl)

all_posted-empty : all_posted.task.stream_queue ≡ []
unfolding on_stream_message forget
all_posted-empty = refl

nine-sent :
    sent_to wire 0 all_posted.sent
    ≡ (map (arriving numbers bytes) (map (outgoing numbers third (js false tt)) (9 ∷ [])), true)
unfolding sent_to
nine-sent = refl

remote_stream-yields_example :
    let request = client_request numbers third tt in
    let a = remote_stream numbers bytes third tt (Live.start wire false).state in
    (executed numbers bytes store
        (bytes.write_request request.0)
        (map (to_item numbers bytes) request.1.post)
      ≡ ok (streamed (map (outgoing numbers third (js false tt)) (9 ∷ []))))
    × (u : State wire) × (dispatch_all wire (messages wire all_posted) a.1 ≡ ok u)
    × (received wire (unpack_delivery numbers bytes third (js false tt)) 2 a.0 u
        ≡ ok (9 ∷ [], true))
unfolding method_of
remote_stream-yields_example =
    remote_stream-yields numbers bytes third store tt false (Live.start wire false) all_posted
      World.here all_posted-Reach all_posted-empty nine-sent
