-- ===== src/System/Tests.antt =====
-- Two ends where one calls a method of the other and the request is delivered.
use web_rpc.Prelude.{◌≡◌, ◌≢◌, refl, true, false, some, List, [], ◌∷◌, ◌++◌, ok, panic}
use web_rpc.Prelude.Dict.{lookup, insert}
use web_rpc.Session.Formats.{request, abort, response}
use web_rpc.Session.Message.{Message, post_message, post_header}
use web_rpc.Session.State.{State, insert_callback}
use web_rpc.Session.Dispatcher.{dispatch_all, poll_dispatcher}
use web_rpc.Session.Client.{Handle, send, request_handle, poll_request, poll_stream}
use web_rpc.Session.World
use web_rpc.Session.World.{initial, handle, call}
use web_rpc.Session.State.{update}
use web_rpc.Session.Tests.{tagged, decode_first}
use web_rpc.System.Duo.{
  End, start, Reach, here, ours, theirs, acted, delivered, Unshared, Reach-swap,
}
use web_rpc.System.Sent.{by_client, by_server}
use web_rpc.System.Safe.{no-panic, poll_request-safe}
use web_rpc.System.Built.{poll_dispatcher-built}
use web_rpc.Session.Frame.{asked, aborted}
use web_rpc.Exchange.Posts.{answer}
use web_rpc.Session.Build.{Interface, new, with_service, with_client, build_server, build_both}
use web_rpc.Session.BuildTests.{seven}

abbrev caller : End tagged
caller = record (start tagged) {
  session = record {
    state = (call tagged 5 [] [] (start tagged).session.state).1;
    live = update (start tagged).session.live 0 (some 0);
  };
}

abbrev other : End tagged
other = record (start tagged) {
  session = record {
    state = record ((start tagged).session.state) {
      inbox = (post_message tagged (request 0) (5 ∷ []) [] []).message ∷ [];
    };
    live = (start tagged).session.live;
  };
}

called-Reach : Reach tagged caller other
unfolding send request_handle insert_callback lookup insert post_message
called-Reach =
    theirs (ours here (acted (World.called 5 [] []) tt))
      (delivered (post_message tagged (request 0) (5 ∷ []) [] []) [] [] refl)

no-panic_example :
    ((t : State tagged) × (dispatch_all tagged other.session.state.inbox
          (record (other.session.state) { inbox = [] })
        ≡ ok t)
      × (poll_dispatcher tagged other.session.state ≡ ok (t, false)))
    × ((h : Handle) → poll_stream tagged (λ d. ok d) h other.session.state ≢ panic)
no-panic_example = no-panic tagged other caller (Reach-swap tagged called-Reach)

called-Unshared : Unshared tagged called-Reach
unfolding called-Reach
called-Unshared = (tt, λ c p. cc)

poll_request-safe_example :
    poll_request tagged decode_first (handle tagged 0 0) caller.session.state ≢ panic
poll_request-safe_example =
    poll_request-safe tagged decode_first caller other 0 0 called-Reach called-Unshared
      (unfold send request_handle insert_callback lookup insert in refl) (λ d e p. cc)

-- A request was the first message to arrive, and a response for nobody and an abort follow.
abbrev early : Interface tagged
early = record { messages = (post_message tagged (request 0) (5 ∷ []) [] []).message ∷ [] }

abbrev later : List (Message tagged)
later =
    (post_message tagged (response 1) (4 ∷ []) [] []).message
    ∷ (post_header tagged (abort 0)).message
    ∷ []

abbrev queued : State tagged
queued = record (initial tagged true) { requests = (0, 5 ∷ [], []) ∷ []; aborts = 0 ∷ [] }

poll_dispatcher-built_example :
    let served = (build_server tagged (with_service tagged seven (new tagged early))).0 in
    let both =
      (build_both tagged (with_client tagged (with_service tagged seven (new tagged early)))).0 in
    (poll_dispatcher tagged (record served { inbox = served.inbox ++ later }) ≡ ok (queued, false))
    × (poll_dispatcher tagged (record both { inbox = both.inbox ++ later }) ≡ ok (queued, false))
unfolding post_message post_header
poll_dispatcher-built_example = poll_dispatcher-built tagged early seven later (
  by_client (asked 0 (5 ∷ []) [] []),
  (by_server (answer 1 4 [] []), (by_client (aborted 0), tt)),
)
