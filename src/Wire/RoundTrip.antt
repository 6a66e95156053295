-- ===== src/Wire/RoundTrip.antt =====
-- What one end encodes, the other end decodes, and the arrays hold just the values that it takes.
use mathlib.Core.List.{Sublist, Sublistᴰ}
use web_rpc.Prelude.{
  ◌≡◌, refl, inl, inr, true, false, none, some, List, [], ◌∷◌, ◌++◌, append_assoc, append-nil, ok,
  if◌then◌else◌,
}
use web_rpc.Wire.Arg.{WireArg}
use web_rpc.Wire.Platform.{Platform}
use web_rpc.Wire.Value.{Route, Value, Arrays, new_arrays, encode, decode, option, result, js, leaf}
use web_rpc.Wire.Params.{
  Param, borrowed, routed, Argument, Arguments, encode_param, encode_params, decode_param,
  decode_params,
}

append-Sublistᴰ {ℓ} :
    {A : Type ℓ} {ks ls ms ns : List A}
    → Sublistᴰ ks ls
    → Sublistᴰ ms ns
    → Sublistᴰ (ks ++ ms) (ls ++ ns)
append-Sublistᴰ Sublistᴰ.slnil s = s
append-Sublistᴰ (Sublistᴰ.cons r) s = Sublistᴰ.cons (append-Sublistᴰ r s)
append-Sublistᴰ (Sublistᴰ.cons-cons e r) s = Sublistᴰ.cons-cons e (append-Sublistᴰ r s)

module _ (p : Platform) where
  open p use {Leaf, Payload, to_allocvec, Js, Class, Instance, js_value}

  -- The wire argument, the posted values and the transferred values of a value.
  unfoldable pub wire : (r : Route p) → Value p r → WireArg
  wire (option r) (some v) = WireArg.some (wire r v)
  wire (option r) none = WireArg.none
  wire (result r s) (inl v) = WireArg.ok (wire r v)
  wire (result r s) (inr e) = WireArg.err (wire s e)
  wire (js t c) v = WireArg.js
  wire (leaf l) v = WireArg.bytes (to_allocvec l v)

  unfoldable pub posted : (r : Route p) → Value p r → List Js
  posted (option r) (some v) = posted r v
  posted (option r) none = []
  posted (result r s) (inl v) = posted r v
  posted (result r s) (inr e) = posted s e
  posted (js t c) v = js_value c v ∷ []
  posted (leaf l) v = []

  unfoldable pub moved : (r : Route p) → Value p r → List Js
  moved (option r) (some v) = moved r v
  moved (option r) none = []
  moved (result r s) (inl v) = moved r v
  moved (result r s) (inr e) = moved s e
  moved (js t c) v = if t then js_value c v ∷ [] else []
  moved (leaf l) v = []

  pub encode_lem :
      (r : Route p) (v : Value p r) (a : Arrays p)
      → encode p r v a
        ≡ (wire r v, record { post = a.post ++ posted r v; transfer = a.transfer ++ moved r v })
  unfolding encode wire posted moved
  encode_lem (option r) (some v) a = rw (encode_lem r v a)
  encode_lem (option r) none a = simp append-nil
  encode_lem (result r s) (inl v) a = rw (encode_lem r v a)
  encode_lem (result r s) (inr e) a = rw (encode_lem s e a)
  encode_lem (js true c) v a = refl
  encode_lem (js false c) v a = simp append-nil
  encode_lem (leaf l) v a = simp append-nil

  decode-wire :
      (r : Route p) (v : Value p r) (rest : List Js)
      → decode p r (wire r v) (posted r v ++ rest) ≡ ok (v, rest)
  unfolding decode wire posted
  decode-wire (option r) (some v) rest = rw (decode-wire r v rest)
  decode-wire (option r) none rest = refl
  decode-wire (result r s) (inl v) rest = rw (decode-wire r v rest)
  decode-wire (result r s) (inr e) rest = rw (decode-wire s e rest)
  decode-wire (js t c) v rest = rw (p.dyn_into-js_value c v)
  decode-wire (leaf l) v rest = rw (p.from_bytes-to_allocvec l v)

  -- A value encoded into fresh arrays is decoded from its wire argument and the posted Javascript
  -- values, whatever follows these, and the decoder takes just the values that were posted.
  pub decode-encode :
      (r : Route p) (v : Value p r) (rest : List Js)
      → let sent = encode p r v (new_arrays p) in
        decode p r sent.0 (sent.1.post ++ rest) ≡ ok (v, rest)
  decode-encode r v rest = rw (encode_lem r v (new_arrays p)) (decode-wire r v rest)

  posted_param : (q : Param p) → Argument p q → List Js
  posted_param (borrowed l) v = []
  posted_param (routed r) v = posted r v

  moved_param : (q : Param p) → Argument p q → List Js
  moved_param (borrowed l) v = []
  moved_param (routed r) v = moved r v

  posted_params : (qs : List (Param p)) → Arguments p qs → List Js
  posted_params [] vs = []
  posted_params (q ∷ qs) (v, vs) = posted_param q v ++ posted_params qs vs

  moved_params : (qs : List (Param p)) → Arguments p qs → List Js
  moved_params [] vs = []
  moved_params (q ∷ qs) (v, vs) = moved_param q v ++ moved_params qs vs

  encode_param-arrays :
      (q : Param p) (v : Argument p q) (a : Arrays p)
      → (encode_param p q v a).1
        ≡ record { post = a.post ++ posted_param q v; transfer = a.transfer ++ moved_param q v }
  unfolding encode_param posted_param moved_param
  encode_param-arrays (borrowed l) v a = simp append-nil
  encode_param-arrays (routed r) v a = rw (encode_lem r v a)

  encode_params-arrays :
      (qs : List (Param p)) (vs : Arguments p qs) (a : Arrays p)
      → (encode_params p qs vs a).1 ≡ record {
        post = a.post ++ posted_params qs vs;
        transfer = a.transfer ++ moved_params qs vs;
      }
  unfolding encode_params posted_params moved_params
  encode_params-arrays [] vs a = simp append-nil
  encode_params-arrays (q ∷ qs) (v, vs) a =
      rw (encode_params-arrays qs vs (encode_param p q v a).1, encode_param-arrays q v a)
        (simp append_assoc)

  decode_param-encode_param :
      (q : Param p) (v : Argument p q) (a : Arrays p) (rest : List Js)
      → decode_param p q (encode_param p q v a).0 (posted_param q v ++ rest) ≡ ok (v, rest)
  unfolding decode_param encode_param posted_param
  decode_param-encode_param (borrowed l) v a rest = refl
  decode_param-encode_param (routed r) v a rest = rw (encode_lem r v a) (decode-wire r v rest)

  decode_params-posted :
      (qs : List (Param p)) (vs : Arguments p qs) (a : Arrays p) (rest : List Js)
      → decode_params p qs (encode_params p qs vs a).0 (posted_params qs vs ++ rest) ≡ ok (vs, rest)
  unfolding decode_params encode_params posted_params
  decode_params-posted [] vs a rest = refl
  decode_params-posted (q ∷ qs) (v, vs) a rest = rw (
    append_assoc (posted_param q v) (posted_params qs vs) rest,
    decode_param-encode_param q v a (posted_params qs vs ++ rest),
    decode_params-posted qs vs (encode_param p q v a).1 rest,
  )

  -- A server that decodes the request of a client recovers every argument, in order, and no
  -- Javascript value is left over.
  pub decode_params-encode_params :
      (qs : List (Param p)) (vs : Arguments p qs)
      → let sent = encode_params p qs vs (new_arrays p) in
        decode_params p qs sent.0 sent.1.post ≡ ok (vs, [])
  decode_params-encode_params qs vs =
      rw (encode_params-arrays qs vs (new_arrays p), ← append-nil (posted_params qs vs))
        (decode_params-posted qs vs (new_arrays p) [])

  moved-Sublistᴰ : (r : Route p) (v : Value p r) → Sublistᴰ (moved r v) (posted r v)
  unfolding moved posted
  moved-Sublistᴰ (option r) (some v) = moved-Sublistᴰ r v
  moved-Sublistᴰ (option r) none = Sublistᴰ.slnil
  moved-Sublistᴰ (result r s) (inl v) = moved-Sublistᴰ r v
  moved-Sublistᴰ (result r s) (inr e) = moved-Sublistᴰ s e
  moved-Sublistᴰ (js true c) v = Sublistᴰ.cons-cons refl Sublistᴰ.slnil
  moved-Sublistᴰ (js false c) v = Sublistᴰ.cons Sublistᴰ.slnil
  moved-Sublistᴰ (leaf l) v = Sublistᴰ.slnil

  moved_params-Sublistᴰ :
      (qs : List (Param p)) (vs : Arguments p qs)
      → Sublistᴰ (moved_params qs vs) (posted_params qs vs)
  unfolding moved_params posted_params moved_param posted_param
  moved_params-Sublistᴰ [] vs = Sublistᴰ.slnil
  moved_params-Sublistᴰ (borrowed l ∷ qs) (v, vs) = moved_params-Sublistᴰ qs vs
  moved_params-Sublistᴰ (routed r ∷ qs) (v, vs) =
      append-Sublistᴰ (moved-Sublistᴰ r v) (moved_params-Sublistᴰ qs vs)

  -- The transfer list of a request holds values that the request also posts, in the same order.
  pub transfer-sublist-post :
      (qs : List (Param p)) (vs : Arguments p qs)
      → let sent = (encode_params p qs vs (new_arrays p)).1 in Sublist sent.transfer sent.post
  transfer-sublist-post qs vs =
      rw (encode_params-arrays qs vs (new_arrays p)) (∣ moved_params-Sublistᴰ qs vs ∣₁)
