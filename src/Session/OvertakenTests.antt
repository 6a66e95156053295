-- ===== src/Session/OvertakenTests.antt =====
-- A request that is never answered, and 2 ^ 32 - 1 notifications: the next call takes its number.
use web_rpc.Prelude.{ℕ, zero, suc, ◌≤◌, ◌≡◌, refl, ◌∙◌, sym, ap, true, some, [], panic, arith}
use web_rpc.Prelude.Dict.{lookup, insert}
use web_rpc.Session.State.{waiting, insert_callback}
use web_rpc.Session.Client.{send, request_handle, poll_request}
use web_rpc.Session.World.{World, handle, call, Reach, next, notified, Unshared}
use web_rpc.Session.Live.{start}
use web_rpc.Session.Overtaken.{call-overtakes}
use web_rpc.Session.Tests.{tagged, decode_first, asked, asked-Reach, asked-Unshared}

-- Notifications in a row.
unfoldable notifies : ℕ → World tagged
notifies zero = asked
notifies (suc n) = let w = notifies n in record w { state = (send tagged 5 [] [] w.state).1 }

notifies-Reach : (n : ℕ) → Reach tagged (start tagged true) (notifies n)
unfolding notifies
notifies-Reach zero = asked-Reach
notifies-Reach (suc n) = next (notifies-Reach n) (notified 5 [] [])

notifies-Unshared : (n : ℕ) → Unshared tagged (notifies-Reach n)
unfolding notifies notifies-Reach
notifies-Unshared zero = asked-Unshared
notifies-Unshared (suc n) = (notifies-Unshared n, tt)

notifies-live : (n : ℕ) → (notifies n).live 0 ≡ some 0
unfolding notifies send request_handle insert_callback lookup insert
notifies-live zero = refl
notifies-live (suc n) = notifies-live n

notifies-waiting : (n : ℕ) → (notifies n).state.oneshots 0 ≡ waiting
unfolding notifies send request_handle insert_callback lookup insert
notifies-waiting zero = refl
notifies-waiting (suc n) = notifies-waiting n

notifies-sequence : (n : ℕ) → n ≤ 4294967294 → (notifies n).state.sequence ≡ suc n
unfolding notifies send request_handle insert_callback lookup insert
notifies-sequence zero h = refl
notifies-sequence (suc n) h = let ih = notifies-sequence n (omega arith) in omega arith

-- The counter after the last number is zero.
notifies-wraps : (n : ℕ) → n ≡ 4294967294 → (notifies (suc n)).state.sequence ≡ 0
unfolding notifies send
notifies-wraps n e = let before = notifies-sequence n (omega arith) in omega arith

abbrev around : World tagged
around = notifies 4294967295

around-sequence : around.state.sequence ≡ 0
around-sequence = notifies-wraps 4294967294 refl

call-overtakes_example :
    ((call tagged 5 [] [] around.state).0.number ≡ around.state.sequence)
    × (poll_request tagged decode_first
          (handle tagged around.state.sequence 0)
          (call tagged 5 [] [] around.state).1
        ≡ panic)
call-overtakes_example =
    call-overtakes tagged decode_first true around 0 5 [] [] (notifies-Reach 4294967295)
      (notifies-Unshared 4294967295) (notifies-live 4294967295 ∙ ap some (sym around-sequence))
      (notifies-waiting 4294967295)
