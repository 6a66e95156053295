-- ===== src/Macro/Endpoint.antt =====
-- web-rpc-macro/src/lib.rs, `js::endpoint!`: its arguments, their checks, and the names in its expansion.
use web_rpc.Prelude.{
  Option, none, some, List, [], ◌∷◌, ◌++◌, Outcome, ok, panic, if◌then◌else◌, Text, text,
}
use web_rpc.Js.Names.{str_eq}
use web_rpc.Macro.Case.{Unicode}
use web_rpc.Macro.Convert.{snake_case_str, screaming_snake_str, description_name}
use web_rpc.Macro.Syntax.{
  RustPath, rust_path, Segments, no_segments, segment, PathArguments, no_arguments, segments,
  last_segment,
}

pub data EndpointError : Type 0 where
  unexpected_key nothing_given expected_generated not_generated : EndpointError
  given_twice : Text → EndpointError

pub data Checked {ℓ} (A : Type ℓ) : Type ℓ where
  accepted : A → Checked A
  rejected : EndpointError → Checked A

infixl 5 ◌>>=◌
abbrev pub ◌>>=◌ {ℓ κ} : {A : Type ℓ} {B : Type κ} → Checked A → (A → Checked B) → Checked B
accepted a >>= f = f a
rejected e >>= f = rejected e

pub data EndpointArg : Type 0 where
  service client : RustPath → EndpointArg

pub record EndpointArgs : Type 0 where
  pub service : Option RustPath
  pub client : Option RustPath

-- `EndpointArg::parse`, on a key and the path behind its `=`.
unfoldable pub parse_arg : Text × RustPath → Checked EndpointArg
parse_arg (key, path) =
    if str_eq key (text "service")
    then accepted (service path)
    else if str_eq key (text "client")
    then accepted (client path)
    else rejected unexpected_key

unfoldable pub parse_entries : List (Text × RustPath) → Checked (List EndpointArg)
parse_entries [] = accepted []
parse_entries (entry ∷ entries) =
    parse_arg entry >>= λ arg. parse_entries entries >>= λ args. accepted (arg ∷ args)

abbrev pub replace_service : Option RustPath → RustPath → EndpointArgs → Checked EndpointArgs
replace_service none path a = accepted (record a { service = some path })
replace_service (some old) path a = rejected (given_twice (text "service"))

abbrev pub replace_client : Option RustPath → RustPath → EndpointArgs → Checked EndpointArgs
replace_client none path a = accepted (record a { client = some path })
replace_client (some old) path a = rejected (given_twice (text "client"))

-- The body of the loop over the entries.
abbrev pub fill : EndpointArg → EndpointArgs → Checked EndpointArgs
fill (service path) a = replace_service a.service path a
fill (client path) a = replace_client a.client path a

unfoldable pub fill_all : List EndpointArg → EndpointArgs → Checked EndpointArgs
fill_all [] a = accepted a
fill_all (arg ∷ args) a = fill arg a >>= fill_all args

abbrev given : Option RustPath → Option RustPath → EndpointArgs → Checked EndpointArgs
given none none a = rejected nothing_given
given none (some c) a = accepted a
given (some s) c a = accepted a

abbrev pub at_least_one : EndpointArgs → Checked EndpointArgs
at_least_one a = given a.service a.client a

-- `EndpointArgs::parse`.
unfoldable pub parse_args : List (Text × RustPath) → Checked EndpointArgs
unfolding parse_entries fill_all
parse_args entries = parse_entries entries >>= λ args.
    fill_all args (record { service = none; client = none }) >>= at_least_one

-- What the expansion names: the class, the constants of the two descriptions, the constant of the
-- endpoint, the symbol that guards the class name, and the two custom sections.
pub record Expansion : Type 0 where
  pub class : Text
  pub service : Option RustPath
  pub client : Option RustPath
  pub endpoint_ident : Text
  pub guard_ident : Text
  pub js_section : Text
  pub dts_section : Text

module _ (u : Unicode) where
  abbrev pub named_segment : Option Text → Checked Segments
  named_segment none = rejected not_generated
  named_segment (some name) = accepted (segment name no_arguments no_segments)

  unfoldable pub description_segments : Segments → Checked Segments
  description_segments no_segments = rejected expected_generated
  description_segments (segment ident args no_segments) = named_segment (description_name u ident)
  description_segments (segment i a (segment ident args ss)) =
      description_segments (segment ident args ss) >>= λ rest. accepted (segment i a rest)

  unfoldable pub description_path : RustPath → Checked RustPath
  unfolding description_segments
  description_path (rust_path leading ss) =
      description_segments ss >>= λ described. accepted (rust_path leading described)

  unfoldable pub description : Option RustPath → Checked (Option RustPath)
  unfolding description_path
  description none = accepted none
  description (some path) = description_path path >>= λ described. accepted (some described)

  unfoldable pub guard_ident : Text → Text
  guard_ident class_name = text "__web_rpc_" ++ snake_case_str u class_name

  unfoldable pub expansion : Text → Option RustPath → Option RustPath → Expansion
  unfolding guard_ident
  expansion class_name service_description client_description = record {
    class = class_name;
    service = service_description;
    client = client_description;
    endpoint_ident = text "__WEB_RPC_ENDPOINT_" ++ screaming_snake_str u class_name;
    guard_ident = guard_ident class_name;
    js_section = text "__web_rpc_" ++ snake_case_str u class_name ++ text "_js";
    dts_section = text "__web_rpc_" ++ snake_case_str u class_name ++ text "_d_ts";
  }

  abbrev pub class_path : Option RustPath → Option RustPath → Option RustPath
  class_path (some path) other = some path
  class_path none path = path

  -- The two `unwrap`s.
  abbrev pub segment_name : Option (Text × PathArguments) → Outcome Text
  segment_name none = panic
  segment_name (some (ident, args)) = ok ident

  abbrev pub class_name : Option RustPath → Outcome Text
  class_name none = panic
  class_name (some path) = segment_name (last_segment (segments path))

  abbrev pub expanded : EndpointArgs → Text → Checked Expansion
  expanded a class =
      description a.service >>= λ s. description a.client >>= λ c. accepted (expansion class s c)

  abbrev pub expand_as : EndpointArgs → Outcome Text → Outcome (Checked Expansion)
  expand_as a panic = panic
  expand_as a (ok class) = ok (expanded a class)

  unfoldable pub endpoint : EndpointArgs → Outcome (Checked Expansion)
  unfolding description
  endpoint a = expand_as a (class_name (class_path a.client a.service))
