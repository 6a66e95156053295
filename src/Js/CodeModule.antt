-- ===== src/Js/CodeModule.antt =====
-- web-rpc/src/js/code.rs: the method tables, the class, and `render`.
use web_rpc.Prelude.{
  ℕ, zero, suc, ◌+◌, Bool, true, false, Option, none, some, List, [], ◌∷◌, Outcome, ok, panic,
  if◌then◌else◌, Text, text,
}
use web_rpc.Js.Output.{
  Pass, ◌>>◌, idle, fail, put, put_usize, put_quoted, put_ident, put_quoted_ident, indent,
}
use web_rpc.Js.Describe.{Return, Arg, Method, Service, Endpoint, method_count, method_at}
use web_rpc.Js.Decls.{Declarations}
use web_rpc.Js.Collect.{collect}
use web_rpc.Js.Code.{schema_entries, separator, wire_description}

-- A pass that needs a value, which is a panic where there is none.
abbrev pub use_outcome {ℓ} : {A : Type ℓ} → Outcome A → (A → Pass) → Pass
use_outcome (ok a) pass = pass a
use_outcome panic pass = fail

unfoldable pub schema_table : Declarations → Pass
schema_table ds = do put (text "const SCHEMAS = {\n"); schema_entries ds; put (text "};\n\n")

unfoldable pub schemas : Endpoint → Pass
schemas e = use_outcome (collect e) schema_table

abbrev pub kind : Return → Text
kind (Return.value desc) = text "\"value\""
kind Return.notify = text "\"notify\""
kind (Return.stream desc) = text "\"stream\""

-- The two loops over the arguments of a method.
unfoldable pub argument_descriptions : List Arg → Bool → Pass
argument_descriptions [] first = idle
argument_descriptions (a ∷ args) first = do
  separator first (text ", ")
  wire_description a.desc
  argument_descriptions args false

unfoldable pub argument_names : List Arg → Bool → Pass
argument_names [] first = idle
argument_names (a ∷ args) first = do
  separator first (text ", ")
  put_ident a.name
  argument_names args false

abbrev pub returns : Return → Pass
returns Return.notify = put (text "null")
returns (Return.value desc) = wire_description desc
returns (Return.stream desc) = wire_description desc

unfoldable pub method_entry : Method → Pass
method_entry m = do
  indent 1
  put (text "{ name: ")
  put_quoted_ident m.name
  put (text ", kind: ")
  put (kind m.ret)
  put (text ", args: [")
  argument_descriptions m.args true
  put (text "], returns: ")
  returns m.ret
  put (text " },\n")

-- `count` rounds from `index` on, over the methods of a service.
unfoldable pub each_method : Service → (Method → ℕ → Pass) → ℕ → ℕ → Pass
each_method s pass zero index = idle
each_method s pass (suc count) index = do
  use_outcome (method_at s index) (λ m. pass m index)
  each_method s pass count (index + 1)

-- A loop over the methods of a service, where there is one.
abbrev pub all_methods : Option Service → (Method → ℕ → Pass) → Pass
all_methods none pass = idle
all_methods (some s) pass = each_method s pass (method_count s) 0

unfoldable pub method_table : Text → Option Service → Pass
method_table name service = do
  put (text "const ")
  put name
  put (text " = [\n")
  all_methods service (λ m index. method_entry m)
  put (text "];\n\n")

abbrev pub is_stream : Return → Bool
is_stream (Return.stream desc) = true
is_stream _ = false

abbrev pub forward : Return → Text
forward Return.notify = text "this._notify("
forward (Return.value desc) = text "return this._request("
forward (Return.stream desc) = text "return this._stream("

-- The separator behind the arguments, where there are any.
abbrev pub after_arguments : List Arg → Pass
after_arguments [] = idle
after_arguments (a ∷ args) = put (text ", ")

unfoldable pub class_method : Method → ℕ → Pass
class_method m index = do
  indent 1
  put_ident m.name
  put (text "(")
  argument_names m.args true
  if is_stream m.ret then (after_arguments m.args >> put (text "callback")) else idle
  put (text ") {\n")
  indent 2
  put (forward m.ret)
  put_usize index
  put (text ", [")
  argument_names m.args true
  put (text "]")
  if is_stream m.ret then put (text ", callback") else idle
  put (text ");\n")
  indent 1
  put (text "}\n")

-- `shell` is the text of web-rpc/js/endpoint.mjs.
unfoldable pub render_js : Text → Endpoint → Pass
render_js shell e = do
  put (text "// Generated by web-rpc. Do not edit.\n\n")
  put shell
  put (text "\n")
  schemas e
  method_table (text "METHODS") e.client
  method_table (text "HANDLERS") e.service
  put (text "export class ")
  put e.class
  put (text " extends Endpoint {\n")
  put (text "  constructor(options) {\n")
  put (text "    super(options, ")
  put_quoted e.class
  put (text ", new Codec(SCHEMAS), METHODS, HANDLERS);\n")
  put (text "  }\n")
  all_methods e.client class_method
  put (text "}\n")
