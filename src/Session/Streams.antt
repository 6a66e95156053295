-- ===== src/Session/Streams.antt =====
-- What a stream's receiver gets of the messages that arrive.
use web_rpc.Prelude.{
  ℕ, ◌≡◌, ◌≢◌, refl, sym, ap, subst, Bool, true, false, Option, none, some, List, [], ◌∷◌, ◌++◌,
  Outcome, ok, panic, arith, ◌>>=◌, if◌then◌else◌, >>=-eq-ok, ◌==◌, fun_ext,
}
use web_rpc.Prelude.Dict.{lookup, remove}
use web_rpc.Session.Formats.{
  Formats, MessageHeader, request, response, abort, stream_item, stream_end,
}
use web_rpc.Session.Message.{Message, take_bytes}
use web_rpc.Session.State.{
  State, Delivery, Queue, update-other, drop_stream_sender, remove_stream_callback,
}
use web_rpc.Session.Dispatcher.{
  dispatch, on_header, on_response, on_request, on_abort, on_stream_item, enqueue, unwrap,
}

module _ (f : Formats) where
  -- What a message is to the stream of number `q`.
  pub data Effect : Type 0 where
    push : Delivery f → Effect
    stop : Effect
    skip : Effect

  abbrev pushed : Outcome (Delivery f) → Effect
  pushed (ok d) = push d
  pushed panic = skip

  unfoldable pub delivery : Message f → Outcome (Delivery f)
  delivery m = do (bytes, rest) ← take_bytes f m; r ← unwrap f (f.read_response bytes); ok (r, rest)

  unfoldable pub header_effect : ℕ → MessageHeader → Message f → Effect
  header_effect q (stream_item n) m = if n == q then pushed (delivery m) else skip
  header_effect q (stream_end n) m = if n == q then stop else skip
  header_effect q (request n) m = skip
  header_effect q (response n) m = skip
  header_effect q (abort n) m = skip

  unfoldable pub opened : Message f → Outcome (MessageHeader × Message f)
  opened m = do (bytes, rest) ← take_bytes f m; h ← unwrap f (f.read_header bytes); ok (h, rest)

  unfoldable pub effect_of : ℕ → Outcome (MessageHeader × Message f) → Effect
  effect_of q (ok (h, rest)) = header_effect q h rest
  effect_of q panic = skip

  unfoldable pub message_effect : ℕ → Message f → Effect
  unfolding effect_of opened header_effect delivery
  message_effect q m = effect_of q (opened m)

  abbrev pub apply_effect : Effect → Queue f → Queue f
  apply_effect (push d) c = record c { items = c.items ++ d ∷ [] }
  apply_effect stop c = record c { is_open = false }
  apply_effect skip c = c

  abbrev pub before : Effect → List (Delivery f) × Bool → List (Delivery f) × Bool
  before (push d) (ds, ended) = (d ∷ ds, ended)
  before stop r = ([], true)
  before skip r = r

  -- The items of stream `q` among messages, up to its end marker, and whether that is there.
  unfoldable pub stream_of : ℕ → List (Message f) → List (Delivery f) × Bool
  stream_of q [] = ([], false)
  stream_of q (m ∷ ms) = before (message_effect q m) (stream_of q ms)

  -- Channel `c` belongs to no stream but number `q`.
  abbrev pub Only : ℕ → ℕ → State f → Type 0
  Only q c s = (n : ℕ) → lookup n s.stream_callbacks ≡ some c → n ≡ q

  -- Channel `c` has no sender left.
  abbrev pub Unfed : ℕ → State f → Type 0
  Unfed c s = (n : ℕ) → lookup n s.stream_callbacks ≢ some c

  pub enqueue-other :
      (o : Option ℕ) (d : Delivery f) (cells : ℕ → Queue f) (c : ℕ)
      → o ≢ some c
      → enqueue f o d cells c ≡ cells c
  enqueue-other none d cells c h = refl
  enqueue-other (some b) d cells c h =
      update-other cells b c (record (cells b) { items = (cells b).items ++ d ∷ [] })
        (λ k. h (ap some k))

  pub drop-other :
      (o : Option ℕ) (cells : ℕ → Queue f) (c : ℕ)
      → o ≢ some c
      → drop_stream_sender f o cells c ≡ cells c
  drop-other none cells c h = refl
  drop-other (some b) cells c h =
      update-other cells b c (record (cells b) { is_open = false }) (λ k. h (ap some k))

  -- What a handled message does to the streams, for every number at once.
  pub data Change (s t : State f) (effect : ℕ → Effect) : Type 0 where
    same :
        ((q : ℕ) → effect q ≡ skip)
        → t.stream_callbacks ≡ s.stream_callbacks
        → t.queues ≡ s.queues
        → Change s t effect
    item :
        (n : ℕ) (d : Delivery f)
        → ((q : ℕ) → effect q ≡ (if n == q then push d else skip))
        → t.stream_callbacks ≡ s.stream_callbacks
        → t.queues ≡ enqueue f (lookup n s.stream_callbacks) d s.queues
        → Change s t effect
    ended :
        (n : ℕ)
        → ((q : ℕ) → effect q ≡ (if n == q then stop else skip))
        → t.stream_callbacks ≡ remove n s.stream_callbacks
        → t.queues ≡ drop_stream_sender f (lookup n s.stream_callbacks) s.queues
        → Change s t effect

  header_Change :
      (h : MessageHeader) (m : Message f) (s : State f) {t : State f}
      → on_header f h m s ≡ ok t
      → Change s t (λ q. header_effect q h m)
  unfolding on_header on_request on_response on_abort on_stream_item remove_stream_callback
      header_effect delivery
  header_Change (request n) m s e =
      let (x, _, e₁) = >>=-eq-ok (take_bytes f m) _ e in
      same (λ q. refl) (ground arith) (ground arith)
  header_Change (abort n) m s e = same (λ q. refl) (ground arith) (ground arith)
  header_Change (response n) m s e =
      let (x, _, e₁) = >>=-eq-ok (take_bytes f m) _ e in
      let (r, _, e₂) = >>=-eq-ok (unwrap f (f.read_response x.0)) _ e₁ in same (λ q. refl) (cc) (cc)
  header_Change (stream_item n) m s e =
      let (x, e₀, e₁) = >>=-eq-ok (take_bytes f m) _ e in
      let (r, er, e₂) = >>=-eq-ok (unwrap f (f.read_response x.0)) _ e₁ in
      item n (r, x.1) (λ q. rw e₀ (rw er)) (cc) (cc)
  header_Change (stream_end n) m s e = ended n (λ q. refl) (ground arith) (ground arith)

  pub dispatch-Change :
      (m : Message f) (s : State f) {t : State f}
      → dispatch f m s ≡ ok t
      → Change s t (λ q. message_effect q m)
  unfolding dispatch message_effect effect_of opened
  dispatch-Change m s {t} e =
      let (x, e₀, e₁) = >>=-eq-ok (take_bytes f m) _ e in
      let (h, eh, e₂) = >>=-eq-ok (unwrap f (f.read_header x.0)) _ e₁ in
      let shown : opened m ≡ ok (h, x.1) = rw e₀ (rw eh) in
      subst (Change s t) (fun_ext (λ q. ap (effect_of q) (sym shown))) (header_Change h x.1 s e₂)
