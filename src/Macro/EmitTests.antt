-- ===== src/Macro/EmitTests.antt =====
-- Types and methods, what is generated for them, and instances of the properties.
use web_rpc.Prelude.{
  ℕ, ◌≡◌, refl, ◌⊎◌, Bool, true, false, not, none, some, List, [], ◌∷◌, ◌++◌, ok, panic, length,
  get_elem?, Text, text, arith,
}
use web_rpc.Js.Names.{str_eq, same_bytes}
use web_rpc.Js.Schema.{NamedType, DataModelType}
use web_rpc.Js.Describe.{Desc, method_at}
use web_rpc.Wire.Arg.{WireArg}
use web_rpc.Wire.Value.{take_js, shift, Value, new_arrays, encode, decode}
use web_rpc.Wire.Strict.{after_shifts}
use web_rpc.Wire.Tests.{numbers}
use web_rpc.Macro.Syntax.{
  Ty, path, rust_path, segment, no_segments, angle_bracketed, type_argument, no_generics,
  no_arguments, reference, impl_trait, trait_bound, no_bounds, assoc_type, size, size_path,
  size_segments, size_arguments, size_generics, last_segment, ident_of,
}
use web_rpc.Macro.Types.{
  stream_item_type, bounds_item, item_argument, type_arguments, all_types, option_inner_type,
  result_inner_types, js_inner_type, is_borrowed_serde_ref, is_ident,
}
use web_rpc.Macro.Emit.{Resolution, walk, wrapping, emit_desc, route, param}
use web_rpc.Macro.Described.{NoInline, Describes, flags, select, encode-Describes, decode-Describes}
use web_rpc.Macro.Attributes.{cfg, other}
use web_rpc.Macro.Method.{
  notify, stream, RpcMethod, receiver, typed, MethodSyntax, generic_parameters, pattern_argument,
  receiver_kind, accepted, rejected, on_input, on_inputs, method_output, parse_method,
}
use web_rpc.Macro.Checks.{parse_method-faults}
use web_rpc.Macro.Generate.{
  field, request_variant, enum_request, response_variant, enum_response, compiled_requests,
  compiled_responses, describe_argument, describe, const_description,
}
use web_rpc.Macro.Numbering.{method_at-numbers}
use web_rpc.Macro.Inline.{is_inline, is_wire_arg, is_borrowed, describe_argument-inline}
use web_rpc.Macro.Tests.{plain}

abbrev name : Text → Ty
name n = path (rust_path false (segment n no_arguments no_segments))

abbrev applied : Text → Ty → Ty
applied n t =
    path (rust_path false (segment n (angle_bracketed (type_argument t no_generics)) no_segments))

-- `Option<Transfer<T>>`.
abbrev optional : Ty
optional = applied (text "Option") (applied (text "Transfer") (name (text "T")))

abbrev resolution : Resolution numbers
resolution = record {
  leaf = λ _. tt;
  class = λ _. tt;
  schema = λ _. NamedType.named (text "u32") DataModelType.u32;
  js_name = λ _. text "ArrayBuffer";
}

optional_desc :
    emit_desc numbers resolution optional ≡ Desc.option (Desc.js (text "ArrayBuffer") true)
unfolding emit_desc walk wrapping option_inner_type result_inner_types js_inner_type type_arguments
    all_types last_segment size size_path size_segments size_arguments size_generics str_eq
    same_bytes text
optional_desc = refl

optional-NoInline : NoInline (emit_desc numbers resolution optional)
optional-NoInline = rw optional_desc tt

sent_value : Value numbers (route numbers resolution optional)
unfolding route walk wrapping option_inner_type result_inner_types js_inner_type type_arguments
    all_types last_segment size size_path size_segments size_arguments size_generics str_eq
    same_bytes text
sent_value = some 7

encode-Describes_example :
    let sent = encode numbers (route numbers resolution optional) sent_value (new_arrays numbers) in
    let marks = flags (emit_desc numbers resolution optional) sent.0 in
    (vs : List ℕ) × Describes (emit_desc numbers resolution optional) sent.0
    × (sent.1.post ≡ [] ++ vs)
    × (length vs ≡ length marks)
    × (sent.1.transfer ≡ [] ++ select marks vs)
encode-Describes_example =
    encode-Describes numbers resolution optional sent_value (new_arrays numbers) optional-NoInline

abbrev arrived : List ℕ
arrived = 7 ∷ 8 ∷ []

abbrev left_over : List ℕ
left_over = 8 ∷ []

decoded :
    decode numbers (route numbers resolution optional) (WireArg.some WireArg.js) arrived
    ≡ ok (sent_value, left_over)
unfolding sent_value decode take_js shift
decoded = refl

decode-Describes_example :
    Describes (emit_desc numbers resolution optional) (WireArg.some WireArg.js)
    × (left_over
        ≡ after_shifts
            (length (flags (emit_desc numbers resolution optional) (WireArg.some WireArg.js)))
            arrived)
decode-Describes_example =
    decode-Describes numbers resolution optional (WireArg.some WireArg.js) arrived {v = sent_value}
      optional-NoInline decoded

-- `#[cfg(feature = "a")] async fn load(&self, name: &str, part: Option<Transfer<T>>)
-- -> impl Stream<Item = T>;`
abbrev item_stream : Ty
item_stream = impl_trait (
    trait_bound
      (rust_path false (
        segment (text "Stream")
          (angle_bracketed (assoc_type (text "Item") (name (text "T")) no_generics)) no_segments))
      no_bounds)

abbrev borrowed_text : Ty
borrowed_text = reference false (name (text "str"))

abbrev loading : MethodSyntax
loading = record {
  attrs = cfg (some (text "a")) ∷ [];
  is_async = true;
  ident = text "load_part";
  has_generics = false;
  inputs =
      receiver true false
      ∷ typed (some (text "name")) borrowed_text
      ∷ typed (some (text "part")) optional
      ∷ [];
  output = some item_stream;
}

load : RpcMethod
load = record {
  is_async = true;
  attrs = cfg (some (text "a")) ∷ [];
  ident = text "load_part";
  args =
      record { ident = text "name"; ty = borrowed_text }
      ∷ record { ident = text "part"; ty = optional }
      ∷ [];
  output = stream (name (text "T"));
}

load_parsed : parse_method loading ≡ accepted load
unfolding load parse_method on_inputs on_input method_output stream_item_type bounds_item
    item_argument last_segment str_eq same_bytes text
load_parsed = refl

parse_method-faults_example :
    parse_method (record loading {
      has_generics = true;
      inputs = receiver false false ∷ typed none optional ∷ [];
    })
    ≡ rejected (generic_parameters ∷ receiver_kind ∷ pattern_argument ∷ [])
parse_method-faults_example =
    parse_method-faults
      (record loading {
        has_generics = true;
        inputs = receiver false false ∷ typed none optional ∷ [];
      })
      refl

-- A method that the build leaves out, and one that it keeps.
abbrev methods : List RpcMethod
methods =
    record {
      is_async = false;
      attrs = cfg (some (text "b")) ∷ other (text "doc") ∷ [];
      ident = text "gone";
      args = [];
      output = notify;
    }
    ∷ load
    ∷ []

abbrev configured : Text → Bool
configured predicate = str_eq predicate (text "a")

method_at-numbers_example :
    let description =
      const_description plain numbers resolution configured (text "Loader") methods in
    let responses = compiled_responses configured (enum_response plain methods) in
    ((method_at description 0 ≡ panic) × (get_elem? responses 0 ≡ none))
    ⊎ ((m : RpcMethod) × (method_at description 0 ≡ ok (describe plain numbers resolution m))
        × (get_elem? (compiled_requests configured (enum_request plain methods)) 0
            ≡ some (request_variant plain m))
        × (get_elem? responses 0 ≡ some (response_variant plain m)))
method_at-numbers_example =
    method_at-numbers configured plain numbers resolution (text "Loader") methods 0
      (unfold load in omega arith)

describe_argument-inline_example :
    let inlined =
      is_inline
        (describe_argument plain numbers resolution
          (record { ident = text "name"; ty = borrowed_text })).desc in
    (is_wire_arg (field (record { ident = text "name"; ty = borrowed_text })).field_type
      ≡ not inlined)
    × (is_borrowed (param numbers resolution borrowed_text) ≡ inlined)
describe_argument-inline_example =
    describe_argument-inline plain numbers resolution
      (record { ident = text "name"; ty = borrowed_text })

inlined_text : is_borrowed_serde_ref borrowed_text ≡ true
unfolding is_borrowed_serde_ref is_ident ident_of str_eq same_bytes text
inlined_text = refl
