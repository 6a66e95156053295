-- ===== src/Macro/Method.antt =====
-- web-rpc-macro/src/lib.rs, `RpcMethod`: a method of a trait as parsed, the checks of its parser, and
-- the names derived from it. The pieces that syn parses are given; a span is left out.
use web_rpc.Prelude.{
  Bool, true, false, not, ◌&&◌, ◌||◌, Option, none, some, List, [], ◌∷◌, ◌++◌, ◌==◌, if◌then◌else◌,
  Text,
}
use web_rpc.Macro.Case.{Unicode}
use web_rpc.Macro.Convert.{snake_to_camel, to_lower_camel}
use web_rpc.Macro.Attributes.{Attribute}
use web_rpc.Macro.Syntax.{Ty}
use web_rpc.Macro.Types.{stream_item_type}
use web_rpc.Session.Formats.{Formats}
use web_rpc.Service.Task.{Body}

pub data MethodOutput : Type 0 where
  notify : MethodOutput
  value stream : Ty → MethodOutput

-- An argument whose pattern is an identifier.
pub record Argument : Type 0 where
  pub ident : Text
  pub ty : Ty

pub record RpcMethod : Type 0 where
  pub is_async : Bool
  pub attrs : List Attribute
  pub ident : Text
  pub args : List Argument
  pub output : MethodOutput

-- `IdentExt::unraw`: an identifier without its `r#`.
unfoldable pub unraw : Text → Text
unraw [] = []
unraw (a ∷ []) = a ∷ []
unraw (a ∷ b ∷ name) = if a == b'r' && b == b'#' then name else a ∷ b ∷ name

module _ (u : Unicode) where
  unfoldable pub variant_ident : RpcMethod → Text
  variant_ident m = snake_to_camel u (unraw m.ident)

  unfoldable pub wire_name : RpcMethod → Text
  wire_name m = to_lower_camel u (unraw m.ident)

module _ (f : Formats) where
  abbrev pub body_by : MethodOutput → Bool → Body f
  body_by notify is_async = Body.notify is_async
  body_by (value ty) is_async = Body.value is_async
  body_by (stream item) is_async = Body.stream is_async

  -- The shape of body that `struct_server` generates for a method.
  unfoldable pub body : RpcMethod → Body f
  body m = body_by m.output m.is_async

-- `FnArg`: whether a receiver is a reference and whether it is `mut`; of an argument, its identifier,
-- if its pattern is one, and its type.
pub data FnArg : Type 0 where
  receiver : Bool → Bool → FnArg
  typed : Option Text → Ty → FnArg

pub record MethodSyntax : Type 0 where
  pub attrs : List Attribute
  pub is_async : Bool
  pub ident : Text
  pub has_generics : Bool
  pub inputs : List FnArg
  pub output : Option Ty

pub data ParseError : Type 0 where
  generic_parameters pattern_argument receiver_kind missing_receiver : ParseError

pub data Parsed {ℓ} (A : Type ℓ) : Type ℓ where
  accepted : A → Parsed A
  rejected : List ParseError → Parsed A

-- The variables of the parser: the errors so far, whether there is a receiver, and the arguments.
pub record Progress : Type 0 where
  pub errors : List ParseError
  pub has_receiver : Bool
  pub args : List Argument

-- `extend_errors!`.
abbrev extend_errors : ParseError → Progress → Progress
extend_errors e s = record s { errors = s.errors ++ e ∷ [] }

-- The body of the loop over the inputs.
unfoldable pub on_input : FnArg → Progress → Progress
on_input (typed (some ident) ty) s = record s {
  args = s.args ++ record { ident = ident; ty = ty } ∷ [];
}
on_input (typed none ty) s = extend_errors pattern_argument s
on_input (receiver is_reference is_mut) s =
    let s' = if not is_reference || is_mut then extend_errors receiver_kind s else s in
    record s' { has_receiver = true }

unfoldable pub on_inputs : List FnArg → Progress → Progress
unfolding on_input
on_inputs [] s = s
on_inputs (input ∷ inputs) s = on_inputs inputs (on_input input s)

abbrev pub output_by : Option Ty → Ty → MethodOutput
output_by (some item) ty = stream item
output_by none ty = value ty

unfoldable pub method_output : Option Ty → MethodOutput
method_output none = notify
method_output (some ty) = output_by (stream_item_type ty) ty

-- `errors?`.
abbrev pub checked : List ParseError → RpcMethod → Parsed RpcMethod
checked [] m = accepted m
checked (e ∷ es) m = rejected (e ∷ es)

abbrev pub start : Bool → Progress
start has_generics = record {
  errors = if has_generics then generic_parameters ∷ [] else [];
  has_receiver = false;
  args = [];
}

-- The `unwrap_or_else` on the receiver.
abbrev pub check_receiver : Progress → Progress
check_receiver s = if s.has_receiver then s else extend_errors missing_receiver s

-- `RpcMethod::parse`.
unfoldable pub parse_method : MethodSyntax → Parsed RpcMethod
unfolding on_inputs
parse_method m =
    let done = check_receiver (on_inputs m.inputs (start m.has_generics)) in
    checked done.errors (record {
      is_async = m.is_async;
      attrs = m.attrs;
      ident = m.ident;
      args = done.args;
      output = method_output m.output;
    })

abbrev pub cons_method : Parsed RpcMethod → Parsed (List RpcMethod) → Parsed (List RpcMethod)
cons_method (rejected es) ms = rejected es
cons_method (accepted m) (rejected es) = rejected es
cons_method (accepted m) (accepted ms) = accepted (m ∷ ms)

-- `Service::parse`, on the methods between the braces: the first one that is rejected ends it.
unfoldable pub parse_service : List MethodSyntax → Parsed (List RpcMethod)
parse_service [] = accepted []
parse_service (m ∷ ms) = cons_method (parse_method m) (parse_service ms)
