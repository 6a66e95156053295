-- ===== src/Handshake/Tests.antt =====
-- A handshake, and instances of what it promises.
use web_rpc.Prelude.{ℕ, ◌≡◌, ◌⊎◌, refl, true, false, [], ◌∷◌, ◌++◌}
use web_rpc.Handshake.Interface.{
  null, array, End, on_event, deliver, installed, polled, finished, sent, arrived, swapped, Reach,
  here, next,
}
use web_rpc.Handshake.Packets.{arrays, has_null}
use web_rpc.Handshake.Readiness.{returned-listening, queue-posted}
use web_rpc.Handshake.Progress.{Later, Reach-returned}

-- The first end polled before the other one listened; it has heard a poll, returned, and posted 7.
abbrev first : End ℕ
first = record {
  wire = [];
  listening = true;
  signalled = true;
  returned = true;
  queue = [];
  posted = 7 ∷ [];
}

abbrev second : End ℕ
second = record {
  wire = null ∷ array 7 ∷ [];
  listening = true;
  signalled = false;
  returned = false;
  queue = [];
  posted = [];
}

first-Reach : Reach ℕ first second
unfolding deliver on_event
first-Reach =
    next
      (next
        (next
          (next
            (next
              (next (next (next here (installed refl)) (polled refl refl))
                (swapped (arrived null [] refl)))
              (swapped (installed refl)))
            (swapped (polled refl refl)))
          (arrived null [] refl))
        (finished refl refl))
      (sent 7 refl)

returned-listening_example :
    (second.listening ≡ true) × ((second.signalled ≡ true) ⊎ (has_null ℕ second.wire ≡ true))
returned-listening_example = returned-listening ℕ first second first-Reach refl

queue-posted_example :
    (first.queue ++ arrays ℕ first.wire ≡ second.posted)
    × (second.queue ++ arrays ℕ second.wire ≡ first.posted)
queue-posted_example = queue-posted ℕ first second first-Reach

Reach-returned_example :
    (c d : End ℕ) × Later ℕ first second c d × (c.returned ≡ true) × (d.returned ≡ true)
Reach-returned_example = Reach-returned ℕ first second first-Reach
