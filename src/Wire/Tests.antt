-- ===== src/Wire/Tests.antt =====
-- A platform of numbers for the properties of the wire format, and their instances.
use web_rpc.Prelude.{
  ℕ, ◌≡◌, refl, true, false, Option, none, some, inl, inr, List, [], ◌∷◌, ok, panic,
}
use mathlib.Core.List.{Sublist}
use web_rpc.Wire.Arg.{WireArg, slots}
use web_rpc.Wire.Platform.{Platform}
use web_rpc.Wire.Value.{Route, new_arrays, encode, decode, option, result, js, leaf}
use web_rpc.Wire.Params.{Param, borrowed, routed, Arguments, encode_params, decode_params}
use web_rpc.Wire.RoundTrip.{decode_params-encode_params, transfer-sublist-post}
use web_rpc.Wire.Strict.{Fits, after_shifts, decode-ok}

abbrev pub first : List ℕ → Option ℕ
first [] = none
first (b ∷ bs) = some b

-- One leaf type, a number written as one byte; one class, whose values are numbers.
abbrev pub numbers : Platform
numbers = record {
  Leaf = Unit {0};
  Payload = λ _. ℕ;
  to_allocvec = λ _ n. n ∷ [];
  from_bytes = λ _. first;
  Js = ℕ;
  undefined = 0;
  Class = Unit {0};
  Instance = λ _. ℕ;
  js_value = λ _ n. n;
  dyn_into = λ _ n. some n;
  from_bytes-to_allocvec = λ _ v. refl;
  dyn_into-js_value = λ _ v. refl;
}

-- `Result<Option<Post<JsString>>, MyError>`.
abbrev nested : Route numbers
nested = result (option (js false tt)) (leaf tt)

-- `tests/wire.rs`: the wire argument of such a value.
nested_ok :
    (encode numbers nested (inl (some 7)) (new_arrays numbers)).0
    ≡ WireArg.ok (WireArg.some WireArg.js)
unfolding encode
nested_ok = refl

nested_err :
    (encode numbers nested (inr 7) (new_arrays numbers)).0 ≡ WireArg.err (WireArg.bytes (7 ∷ []))
unfolding encode
nested_err = refl

nested_mismatch : decode numbers nested WireArg.js (7 ∷ []) ≡ panic
unfolding decode
nested_mismatch = refl

-- `fn f(&self, a: &str, b: Transfer<T>, c: Result<Option<Post<T>>, E>)`.
abbrev signature : List (Param numbers)
signature = borrowed tt ∷ routed (js true tt) ∷ routed nested ∷ []

abbrev arguments : Arguments numbers signature
arguments = (1, (2, (inl (some 3), tt)))

decode_params-encode_params_example :
    let sent = encode_params numbers signature arguments (new_arrays numbers) in
    decode_params numbers signature sent.0 sent.1.post ≡ ok (arguments, [])
decode_params-encode_params_example = decode_params-encode_params numbers signature arguments

transfer-sublist-post_example :
    let sent = (encode_params numbers signature arguments (new_arrays numbers)).1 in
    Sublist sent.transfer sent.post
transfer-sublist-post_example = transfer-sublist-post numbers signature arguments

decode-ok_example :
    Fits numbers nested (WireArg.ok (WireArg.some WireArg.js))
    × (◌≡◌ {A = List ℕ}
        (9 ∷ [])
        (after_shifts (slots (WireArg.ok (WireArg.some WireArg.js))) (7 ∷ 9 ∷ [])))
unfolding decode
decode-ok_example =
    decode-ok numbers nested (WireArg.ok (WireArg.some WireArg.js)) (7 ∷ 9 ∷ []) {v = inl (some 7)}
      refl
