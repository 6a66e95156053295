-- ===== src/Wire/Params.antt =====
-- web-rpc-macro/src/lib.rs: how `struct_client` packs a method's arguments into a request, and how
-- `struct_server` unpacks them. A `&str` or `&[u8]` argument travels in the request itself.
use web_rpc.Prelude.{List, [], ◌∷◌, Outcome, ok, ◌>>=◌}
use web_rpc.Wire.Arg.{WireArg}
use web_rpc.Wire.Platform.{Platform}
use web_rpc.Wire.Value
use web_rpc.Wire.Value.{Route}

module _ (p : Platform) where
  open p use {Leaf, Payload, Js}

  pub data Param : Type 0 where
    borrowed : Leaf → Param
    routed : Route p → Param

  abbrev pub Argument : Param → Type 0
  Argument (borrowed l) = Payload l
  Argument (routed r) = Value.Value p r

  -- The type of an argument's field in the request enum.
  abbrev pub Field : Param → Type 0
  Field (borrowed l) = Payload l
  Field (routed r) = WireArg

  abbrev pub Arguments : List Param → Type 0
  Arguments [] = Unit
  Arguments (q ∷ qs) = Argument q × Arguments qs

  abbrev pub Fields : List Param → Type 0
  Fields [] = Unit
  Fields (q ∷ qs) = Field q × Fields qs

  unfoldable pub encode_param : (q : Param) → Argument q → Value.Arrays p → Field q × Value.Arrays p
  encode_param (borrowed l) v a = (v, a)
  encode_param (routed r) v a = Value.encode p r v a

  -- The client's encodings, in declaration order.
  unfoldable pub encode_params :
      (qs : List Param) → Arguments qs → Value.Arrays p → Fields qs × Value.Arrays p
  encode_params [] vs a = (tt, a)
  encode_params (q ∷ qs) (v, vs) a =
      let first = encode_param q v a in
      let rest = encode_params qs vs first.1 in ((first.0, rest.0), rest.1)

  unfoldable pub decode_param : (q : Param) → Field q → List Js → Outcome (Argument q × List Js)
  decode_param (borrowed l) v js = ok (v, js)
  decode_param (routed r) w js = Value.decode p r w js

  -- The server's decodings, in the same order.
  unfoldable pub decode_params :
      (qs : List Param) → Fields qs → List Js → Outcome (Arguments qs × List Js)
  decode_params [] fs js = ok (tt, js)
  decode_params (q ∷ qs) (f, fs) js = decode_param q f js >>= λ (v, js').
      decode_params qs fs js' >>= λ (vs, rest). ok ((v, vs), rest)
