-- ===== src/Service/Tests.antt =====
-- A history of a server, and instances of the properties of the server.
use web_rpc.Prelude.{ok, ◌>>=◌, ◌+◌, ◌≡◌, ◌≤◌, refl, true, false, none, some, [], ◌∷◌, ◌++◌, map}
use web_rpc.Prelude.Dict.{insert, lookup, remove}
use web_rpc.Session.Tests.{tagged, decode_first}
use web_rpc.Session.Message.{Post}
use web_rpc.Session.State.{State}
use web_rpc.Session.Dispatcher.{dispatch}
use web_rpc.Session.Client.{ready, disarm, poll_request}
use web_rpc.Session.World.{initial, call}
use web_rpc.Exchange.{serve, call-response}
use web_rpc.Service.Task.{
  value, stream, ExecuteResult, on_request, on_execution, on_abort, stream_post, forget,
}
use web_rpc.Service.Execute.{returned, forwarded}
use web_rpc.Service.Steps.{
  World, request, item, ended, requested, end_execution, Reach, here, next, start,
}
use web_rpc.Service.Answers.{answers, answers-le-received, answers-after-abort}
use web_rpc.Service.Streams.{streamed, streamed_in-order}
use web_rpc.Service.EndMarkers.{end_markers, streaming, end_markers-streaming}

-- A request 4 for a value, and a request 7 for a stream.
abbrev asked : World tagged
asked =
    requested tagged (7, 1 ∷ [], []) (stream false)
      (requested tagged (4, 2 ∷ [], []) (value false) (start tagged))

asked-Reach : Reach tagged (start tagged) asked
asked-Reach =
    next (next here (request (4, 2 ∷ [], []) (value false)))
      (request (7, 1 ∷ [], []) (stream false))

-- The first one ends with the response 9.
abbrev replied : World tagged
replied =
    end_execution tagged 4
      (record { number = 7; abort = 1; body = stream false; forwarding = true } ∷ []) []
      (ExecuteResult.reply (some (9, [], []))) asked

replied-Reach : Reach tagged (start tagged) replied
unfolding on_request
replied-Reach = next asked-Reach (
    ended (record { number = 7; abort = 1; body = stream false; forwarding = true } ∷ []) []
      (record { number = 4; abort = 0; body = value false; forwarding = false }) []
      (ExecuteResult.reply (some (9, [], []))) refl (returned false (9, [], []) refl))

-- The other sends an item and ends.
abbrev over : World tagged
over = end_execution tagged 7 [] ((7, none) ∷ []) ExecuteResult.stream_complete (record replied {
  task = record (replied.task) {
    stream_queue = replied.task.stream_queue ++ (7, some (6, [], [])) ∷ [];
  };
  sent = replied.sent ++ (7, some (6, [], [])) ∷ [];
})

over-Reach : Reach tagged (start tagged) over
unfolding on_request on_execution forget lookup insert remove
over-Reach =
    next
      (next replied-Reach (
        item [] [] (record { number = 7; abort = 1; body = stream false; forwarding = true }) false
          (6, [], []) refl refl refl))
      (ended [] [] (record { number = 7; abort = 1; body = stream false; forwarding = true })
        ((7, none) ∷ []) ExecuteResult.stream_complete refl (forwarded false refl refl))

answers-le-received_example : answers tagged 4 replied.task.outbox ≤ replied.received 4
answers-le-received_example = answers-le-received tagged replied 4 replied-Reach

-- Request 4 is aborted before it ends, and then ends.
abbrev aborted : World tagged
aborted = record asked { task = on_abort tagged 4 asked.task }

abbrev aborted_end : World tagged
aborted_end =
    end_execution tagged 4
      (record { number = 7; abort = 1; body = stream false; forwarding = true } ∷ []) []
      (ExecuteResult.reply (some (9, [], []))) aborted

aborted-Reach : Reach tagged aborted aborted_end
unfolding on_request on_abort forget
aborted-Reach = next here (
    ended (record { number = 7; abort = 1; body = stream false; forwarding = true } ∷ []) []
      (record { number = 4; abort = 0; body = value false; forwarding = false }) []
      (ExecuteResult.reply (some (9, [], []))) refl (returned false (9, [], []) refl))

answers-after-abort_example :
    answers tagged 4 aborted_end.task.outbox ≡ answers tagged 4 asked.task.outbox
answers-after-abort_example = answers-after-abort tagged asked aborted_end 4 aborted-Reach refl

streamed_in-order_example :
    streamed tagged over.task.outbox ++ map (stream_post tagged) over.task.stream_queue
    ≡ map (stream_post tagged) over.sent
streamed_in-order_example = streamed_in-order tagged over over-Reach

end_markers-streaming_example :
    end_markers tagged 7 over.sent + streaming tagged 7 over.task.executions ≡ over.streams 7
end_markers-streaming_example = end_markers-streaming tagged over 7 over-Reach

-- A method `fn f() -> u32`, called by one end and executed by the other.
call-response_example :
    let a = call tagged 5 [] [] (initial tagged false) in
    (sent answer : Post tagged) × (a.1.outbox ≡ sent ∷ [])
    × (dispatch tagged sent.message (initial tagged true)
        ≡ ok (record (initial tagged true) { requests = (a.0.number, 5 ∷ [], []) ∷ [] }))
    × ((serve tagged (a.0.number, 5 ∷ [], []) (value false) (8, [], []) (start tagged).task).outbox
        ≡ answer ∷ [])
    × (v : State tagged) × (dispatch tagged answer.message a.1 ≡ ok v)
    × (poll_request tagged decode_first a.0 v
        ≡ (decode_first (8, []) >>= λ x. ok (ready x, disarm a.0, v)))
call-response_example =
    call-response tagged decode_first 5 [] [] (initial tagged false) (initial tagged true)
      (value false) 8 [] [] (start tagged).task refl
