-- ===== src/Js/DtsMethods.antt =====
-- web-rpc/src/js/dts.rs: the types of arguments and results, and the methods.
use web_rpc.Prelude.{Bool, true, false, Option, List, [], ◌∷◌, if◌then◌else◌, text}
use web_rpc.Js.Output.{Pass, ◌>>◌, idle, put, put_ident, indent}
use web_rpc.Js.Describe.{Desc, Return, Arg, Method, Service}
use web_rpc.Js.Code.{separator}
use web_rpc.Js.CodeModule.{all_methods, is_stream, after_arguments}
use web_rpc.Js.Dts.{is_unit, type_reference}

unfoldable pub desc_type : Desc → Pass
desc_type (Desc.js name transfer) = put name
desc_type (Desc.postcard t) = type_reference t
desc_type (Desc.inline t) = type_reference t
desc_type (Desc.option inner) = do put (text "("); desc_type inner; put (text " | undefined)")
desc_type (Desc.result o e) = do
  put (text "({ tag: \"Ok\"; value: ")
  desc_type o
  put (text " } | { tag: \"Err\"; value: ")
  desc_type e
  put (text " })")

unfoldable pub return_type : Desc → Pass
return_type (Desc.js name transfer) = desc_type (Desc.js name transfer)
return_type (Desc.postcard t) = if is_unit t then put (text "void") else desc_type (Desc.postcard t)
return_type (Desc.inline t) = desc_type (Desc.inline t)
return_type (Desc.option inner) = desc_type (Desc.option inner)
return_type (Desc.result o e) = return_type o

abbrev pub is_option : Desc → Bool
is_option (Desc.option inner) = true
is_option _ = false

unfoldable pub all_options : List Arg → Bool
all_options [] = true
all_options (a ∷ args) = if is_option a.desc then all_options args else false

-- The arguments are given from the index in question on.
unfoldable pub is_optional_argument : Return → List Arg → Bool
is_optional_argument ret args = if is_stream ret then false else all_options args

-- A parameter that may be left out is `T | undefined` already.
abbrev pub optional_type : Desc → Pass
optional_type (Desc.option inner) = desc_type inner
optional_type other = desc_type other

abbrev pub optional_parameter : Desc → Pass
optional_parameter desc = do put (text "?: "); optional_type desc

abbrev pub required_parameter : Desc → Pass
required_parameter desc = do put (text ": "); desc_type desc

-- The loop of `parameters`.
unfoldable pub parameter_items : Return → List Arg → Bool → Pass
parameter_items ret [] first = idle
parameter_items ret (a ∷ args) first = do
  separator first (text ", ")
  put_ident a.name
  if is_optional_argument ret (a ∷ args)
      then optional_parameter a.desc
      else required_parameter a.desc
  parameter_items ret args false

unfoldable pub parameters : Method → Pass
parameters m = parameter_items m.ret m.args true

abbrev pub client_return : Return → List Arg → Pass
client_return Return.notify args = put (text "): void;\n")
client_return (Return.value desc) args = do
  put (text "): Request<")
  return_type desc
  put (text ">;\n")
client_return (Return.stream item) args = do
  after_arguments args
  put (text "callback: (item: ")
  desc_type item
  put (text ") => void | Promise<void>): Subscription;\n")

unfoldable pub client_method : Method → Pass
client_method m = do
  indent 1
  put_ident m.name
  put (text "(")
  parameters m
  client_return m.ret m.args

abbrev pub handler_return : Return → Pass
handler_return Return.notify = put (text "): void;\n")
handler_return (Return.value desc) = do
  put (text "): ")
  return_type desc
  put (text " | Promise<")
  return_type desc
  put (text ">;\n")
handler_return (Return.stream item) = do
  put (text "): Iterable<")
  desc_type item
  put (text "> | AsyncIterable<")
  desc_type item
  put (text ">;\n")

unfoldable pub handler_method : Method → Pass
handler_method m = do indent 1; put_ident m.name; put (text "("); parameters m; handler_return m.ret

-- `methods`, where there is a service.
unfoldable pub methods : Option Service → Bool → Pass
methods service handler_side =
    all_methods service (λ m index. if handler_side then handler_method m else client_method m)
