-- ===== src/Exchange/Tests.antt =====
-- A streaming call whose server sends one item and ends.
use web_rpc.Prelude.{◌≡◌, refl, true, false, none, some, [], ◌∷◌, ◌++◌, ok, suc, length}
use web_rpc.Prelude.Dict.{insert, lookup, remove}
use web_rpc.Session.Tests.{tagged, decode_first}
use web_rpc.Session.State.{State}
use web_rpc.Session.Dispatcher.{dispatch_all}
use web_rpc.Session.Drain.{received, Decodes, none_left, one_more}
use web_rpc.Session.World.{call_stream}
use web_rpc.Session.World
use web_rpc.Session.Live
use web_rpc.Service.Task.{
  stream, ExecuteResult, on_request, on_execution, on_stream_message, stream_post, forget,
}
use web_rpc.Service.Execute.{forwarded}
use web_rpc.Service.Steps
use web_rpc.Exchange.Posts.{sent_to}
use web_rpc.Exchange.Streaming.{messages, call_stream-received}

abbrev asked : Steps.World tagged
asked = Steps.requested tagged (0, 5 ∷ [], []) (stream false) (Steps.start tagged)

abbrev item_sent : Steps.World tagged
item_sent = record asked {
  task = record (asked.task) {
    stream_queue = asked.task.stream_queue ++ (0, some (6, [], [])) ∷ [];
  };
  sent = asked.sent ++ (0, some (6, [], [])) ∷ [];
}

abbrev ended : Steps.World tagged
ended = Steps.end_execution tagged 0 [] ((0, none) ∷ []) ExecuteResult.stream_complete item_sent

-- Both messages of the stream are posted.
abbrev item_posted : Steps.World tagged
item_posted = record ended {
  task =
      on_stream_message tagged (0, some (6, [], []))
        (record (ended.task) { stream_queue = (0, none) ∷ [] });
}

abbrev all_posted : Steps.World tagged
all_posted = record item_posted {
  task = on_stream_message tagged (0, none) (record (item_posted.task) { stream_queue = [] });
}

all_posted-Reach : Steps.Reach tagged (Steps.start tagged) all_posted
unfolding on_request on_execution on_stream_message stream_post forget lookup insert remove
all_posted-Reach =
    Steps.next
      (Steps.next
        (Steps.next
          (Steps.next (Steps.next Steps.here (Steps.request (0, 5 ∷ [], []) (stream false))) (
            Steps.item [] []
              (record { number = 0; abort = 0; body = stream false; forwarding = true }) false
              (6, [], []) refl refl refl))
          (Steps.ended [] []
            (record { number = 0; abort = 0; body = stream false; forwarding = true })
            ((0, none) ∷ []) ExecuteResult.stream_complete refl (forwarded false refl refl)))
        (Steps.posted (0, some (6, [], [])) ((0, none) ∷ []) refl))
      (Steps.posted (0, none) [] refl)

all_posted-empty : all_posted.task.stream_queue ≡ []
unfolding on_stream_message forget
all_posted-empty = refl

all_posted-over : (sent_to tagged 0 all_posted.sent).1 ≡ true
unfolding sent_to
all_posted-over = refl

all_posted-Decodes : Decodes tagged decode_first (sent_to tagged 0 all_posted.sent).0 (6 ∷ [])
unfolding sent_to
all_posted-Decodes = one_more refl none_left

call_stream-received_example :
    let a = call_stream tagged 5 [] [] (Live.start tagged false).state in
    let items = (sent_to tagged 0 all_posted.sent).0 in
    (v : State tagged) × (dispatch_all tagged (messages tagged all_posted) a.1 ≡ ok v)
    × (received tagged decode_first (suc (length items)) a.0 v ≡ ok (6 ∷ [], true))
call_stream-received_example =
    call_stream-received tagged decode_first (6 ∷ []) false (Live.start tagged false) 5 [] []
      all_posted World.here all_posted-Reach all_posted-empty all_posted-over all_posted-Decodes
