-- ===== src/Macro/EndpointTests.antt =====
-- Endpoints, and instances of the properties of their expansion.
use web_rpc.Prelude.{◌≡◌, ◌↔◌, refl, false, none, some, List, [], ◌∷◌, ◌++◌, ok, Text, text, codes}
use web_rpc.Macro.Syntax.{RustPath, segment, no_segments, no_arguments}
use web_rpc.Macro.Endpoint.{
  accepted, rejected, given_twice, unexpected_key, EndpointArgs, parse_arg, parse_entries, fill_all,
  parse_args, expansion, endpoint,
}
use web_rpc.Macro.Given.{Given, parse_args_iff}
use web_rpc.Macro.Expand.{Mention, mention, described, endpoint-generated}
use web_rpc.Js.Names.{str_eq, same_bytes}
use web_rpc.Macro.Tests.{plain}

-- `api::CalculatorService<_>` and `DisplayClient`.
abbrev calculator : Mention
calculator = record {
  leading = false;
  modules = segment (text "api") no_arguments no_segments;
  trait_name = codes "Calculator";
  args = no_arguments;
}

abbrev display : Mention
display = record {
  leading = false;
  modules = no_segments;
  trait_name = codes "Display";
  args = no_arguments;
}

abbrev entries : List (Text × RustPath)
entries =
    (text "client", mention plain "Client" display)
    ∷ (text "service", mention plain "Service" calculator)
    ∷ []

abbrev both : EndpointArgs
both = record {
  service = some (mention plain "Service" calculator);
  client = some (mention plain "Client" display);
}

twice : parse_args (entries ++ entries) ≡ rejected (given_twice (text "client"))
unfolding parse_args parse_entries parse_arg fill_all str_eq same_bytes text
twice = refl

unknown :
    parse_args ((text "server", mention plain "Client" display) ∷ []) ≡ rejected unexpected_key
unfolding parse_args parse_entries parse_arg str_eq same_bytes text
unknown = refl

parse_args_iff_example : (parse_args entries ≡ accepted both) ↔ Given entries both
parse_args_iff_example = parse_args_iff entries both

endpoint-generated_example :
    (endpoint plain both
      ≡ ok (
          accepted (
            expansion plain
              (codes "Display" ++ text "Client")
              (some (described plain calculator))
              (some (described plain display)))))
    × (endpoint plain (record { service = some (mention plain "Service" display); client = none })
        ≡ ok (
            accepted (
              expansion plain
                (codes "Display" ++ text "Service")
                (some (described plain display))
                none)))
endpoint-generated_example = endpoint-generated plain (some calculator) display (λ h. cc) (λ h. cc)
