-- ===== src/Session/BuildTests.antt =====
-- Interfaces that are just built, for the properties of `Builder::build`.
use web_rpc.Prelude.{ℕ, ◌≡◌, [], ◌∷◌, ok, panic}
use web_rpc.Session.Formats.{request, abort, response}
use web_rpc.Session.Message.{post_message, post_header}
use web_rpc.Session.Dispatcher.{dispatch}
use web_rpc.Session.World.{here}
use web_rpc.Session.Build.{Interface, new, with_client, build_client, built}
use web_rpc.Session.Alive.{build_client-requests}
use web_rpc.Session.Tests.{tagged}

abbrev pub seven : ℕ
seven = 7

-- A response was the first message.
abbrev early : Interface tagged
early = record { messages = (post_message tagged (response 1) (4 ∷ []) [] []).message ∷ [] }

build_client-requests_example :
    let s = build_client tagged {T = ℕ} (with_client tagged (new tagged early)) in
    (dispatch tagged (post_message tagged (request 0) (5 ∷ []) [] []).message s ≡ panic)
    × (dispatch tagged (post_header tagged (abort 0)).message s ≡ ok s)
build_client-requests_example =
    let s = build_client tagged {T = ℕ} (with_client tagged (new tagged early)) in
    build_client-requests tagged ℕ early (built tagged s) 0 (5 ∷ []) [] [] here
