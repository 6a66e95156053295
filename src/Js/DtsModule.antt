-- ===== src/Js/DtsModule.antt =====
-- web-rpc/src/js/dts.rs, `render`: the declarations of one endpoint.
use web_rpc.Prelude.{true, false, Option, none, some, [], ◌∷◌, text}
use web_rpc.Js.Output.{Pass, ◌>>◌, idle, put}
use web_rpc.Js.Schema.{name_of, type_of}
use web_rpc.Js.Describe.{Service, Endpoint}
use web_rpc.Js.Decls.{Declarations}
use web_rpc.Js.Collect.{collect}
use web_rpc.Js.CodeModule.{use_outcome}
use web_rpc.Js.Dts.{type_body}
use web_rpc.Js.DtsMethods.{methods}

unfoldable pub declaration_items : Declarations → Pass
declaration_items [] = idle
declaration_items (d ∷ ds) = do
  put (text "export type ")
  put (name_of d)
  put (text " = ")
  type_body (type_of d)
  put (text ";\n")
  declaration_items ds

abbrev pub after_declarations : Declarations → Pass
after_declarations [] = idle
after_declarations (d ∷ ds) = put (text "\n")

unfoldable pub declarations : Declarations → Pass
declarations ds = do declaration_items ds; after_declarations ds

unfoldable pub fixed_types : Pass
fixed_types = do
  put (text "/** A request in flight. Awaiting it yields the response; `abort` cancels it. */\n")
  put (text "export type Request<T> = Promise<T> & { abort(): void };\n\n")
  put (text "/** A stream in flight. `close` stops the producer; `done` settles when it ends. */\n")
  put (text "export interface Subscription {\n")
  put (text "  close(): void;\n")
  put (text "  done: Promise<void>;\n")
  put (text "}\n\n")
  put (text "/** A transport this endpoint can be handed. It is never created or closed here. */\n")
  put (text "export type Endpoint = Worker | MessagePort | DedicatedWorkerGlobalScope;\n\n")

unfoldable pub handlers_interface : Option Service → Pass
handlers_interface none = idle
handlers_interface (some s) = do
  put (text "/** The methods this endpoint must implement. Every one is required. */\n")
  put (text "export interface ")
  put s.name
  put (text " {\n")
  methods (some s) true
  put (text "}\n\n")

abbrev pub handlers_option : Option Service → Pass
handlers_option none = idle
handlers_option (some s) = do put (text "  handlers: "); put s.name; put (text ";\n")

unfoldable pub options_type : Endpoint → Pass
options_type e = do
  put (text "export type ")
  put e.class
  put (text "Options = {\n")
  put (text "  endpoint: Endpoint;\n")
  handlers_option e.service
  put (text "};\n\n")

unfoldable pub class_declaration : Endpoint → Pass
class_declaration e = do
  put (text "export declare class ")
  put e.class
  put (text " {\n")
  put (text "  constructor(options: ")
  put e.class
  put (text "Options);\n")
  methods e.client false
  put (text "  /** Detach listeners, reject pending requests and close open streams. */\n")
  put (text "  close(): void;\n")
  put (text "}\n")

unfoldable pub render_dts : Endpoint → Pass
render_dts e = do
  put (text "// Generated by web-rpc. Do not edit.\n\n")
  use_outcome (collect e) declarations
  fixed_types
  handlers_interface e.service
  options_type e
  class_declaration e
