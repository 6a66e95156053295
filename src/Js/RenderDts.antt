-- ===== src/Js/RenderDts.antt =====
-- The Typescript renderer of web-rpc/src/js/dts.rs writes its text whatever the buffer.
use web_rpc.Prelude.{◌≡◌, ok, panic, Bool, true, false, Option, none, some, List, [], ◌∷◌, Text}
use web_rpc.Js.Output.{Output, Pass}
use web_rpc.Js.Render.{Writes, fail-seq}
use web_rpc.Js.RenderSchema.{rendering}
use web_rpc.Js.RenderJs.{Uniform-after_arguments}
use web_rpc.Js.EachMethod.{Writes-all_methods}
use web_rpc.Js.Schema.{
  NamedType, DataModelType, NamedTypes, NamedValues, NamedVariants, DataModelVariant, named,
  no_types, and_type, no_fields, and_field, no_variants, and_variant, unit_variant, newtype_variant,
  tuple_variant, struct_variant,
}
use web_rpc.Js.Describe.{Desc, Return, Arg, Method, Service, Endpoint}
use web_rpc.Js.Decls.{Declarations}
use web_rpc.Js.Collect.{collect}
use web_rpc.Js.Dts.{
  tagged_variant, type_reference, type_items, type_fields, variant_fields, type_body, type_variants,
  type_variant,
}
use web_rpc.Js.DtsMethods.{
  desc_type, return_type, optional_type, parameter_items, parameters, client_return, client_method,
  handler_return, handler_method, methods,
}
use web_rpc.Js.DtsModule.{
  declaration_items, after_declarations, declarations, fixed_types, handlers_interface,
  handlers_option, options_type, class_declaration, render_dts,
}

Writes-tagged_variant :
    (name : Text) {contents : Pass} → Writes contents → Writes (tagged_variant name contents)
Writes-tagged_variant name h = search rendering depth 10

mutual
  unfolding type_reference type_items type_fields variant_fields type_body type_variants
      type_variant

  Writes-type_reference : (t : NamedType) → Writes (type_reference t)
  Writes-type_reference (named name ty) = search (rendering, Writes-type_body ty)

  Writes-type_items : (ts : NamedTypes) (first : Bool) → Writes (type_items ts first)
  Writes-type_items no_types first = search rendering
  Writes-type_items (and_type t ts) first =
      search (rendering, Writes-type_reference t, Writes-type_items ts false)

  Writes-type_fields : (fields : NamedValues) → Writes (type_fields fields)
  Writes-type_fields no_fields = search rendering
  Writes-type_fields (and_field name t fields) =
      search (rendering, Writes-type_reference t, Writes-type_fields fields) depth 20

  Writes-variant_fields : (fields : NamedValues) → Writes (variant_fields fields)
  Writes-variant_fields no_fields = search rendering
  Writes-variant_fields (and_field name t fields) =
      search (rendering, Writes-type_reference t, Writes-variant_fields fields) depth 20

  Writes-type_body : (ty : DataModelType) → Writes (type_body ty)
  Writes-type_body (DataModelType.option inner) = search (rendering, Writes-type_reference inner)
  Writes-type_body (DataModelType.newtype_struct inner) = Writes-type_reference inner
  Writes-type_body (DataModelType.seq inner) = search (rendering, Writes-type_reference inner)
  Writes-type_body (DataModelType.tuple ts) = search (rendering, Writes-type_items ts true)
  Writes-type_body (DataModelType.tuple_struct ts) = search (rendering, Writes-type_items ts true)
  Writes-type_body (DataModelType.map key val) =
      search (rendering, Writes-type_reference key, Writes-type_reference val) depth 20
  Writes-type_body (DataModelType.struct fields) = search (rendering, Writes-type_fields fields)
  Writes-type_body (DataModelType.enum no_variants) = search rendering
  Writes-type_body (DataModelType.enum (and_variant name v variants)) =
      Writes-type_variants (and_variant name v variants) true _
  Writes-type_body _ = search rendering

  Writes-type_variants :
      (variants : NamedVariants) (first unit_only : Bool)
      → Writes (type_variants variants first unit_only)
  Writes-type_variants no_variants first unit_only = search rendering
  Writes-type_variants (and_variant name v variants) first unit_only = search (
    rendering,
    Writes-tagged_variant name (Writes-type_variant v),
    Writes-type_variants variants false unit_only,
  )

  Writes-type_variant : (v : DataModelVariant) → Writes (type_variant v)
  Writes-type_variant unit_variant = search rendering
  Writes-type_variant (newtype_variant inner) = search (rendering, Writes-type_reference inner)
  Writes-type_variant (tuple_variant (and_type inner no_types)) =
      search (rendering, Writes-type_reference inner)
  Writes-type_variant (tuple_variant no_types) = search (rendering, Writes-type_items no_types true)
  Writes-type_variant (tuple_variant (and_type t (and_type u ts))) =
      search (rendering, Writes-type_items (and_type t (and_type u ts)) true)
  Writes-type_variant (struct_variant fields) = Writes-variant_fields fields

Writes-desc_type : (desc : Desc) → Writes (desc_type desc)
unfolding desc_type
Writes-desc_type (Desc.js name transfer) = search rendering
Writes-desc_type (Desc.postcard t) = Writes-type_reference t
Writes-desc_type (Desc.inline t) = Writes-type_reference t
Writes-desc_type (Desc.option inner) = search (rendering, Writes-desc_type inner)
Writes-desc_type (Desc.result o e) =
    search (rendering, Writes-desc_type o, Writes-desc_type e) depth 20

Writes-return_type : (desc : Desc) → Writes (return_type desc)
unfolding return_type
Writes-return_type (Desc.js name transfer) = Writes-desc_type (Desc.js name transfer)
Writes-return_type (Desc.postcard t) = search (rendering, Writes-desc_type)
Writes-return_type (Desc.inline t) = Writes-desc_type (Desc.inline t)
Writes-return_type (Desc.option inner) = Writes-desc_type (Desc.option inner)
Writes-return_type (Desc.result o e) = Writes-return_type o

Writes-optional_type : (desc : Desc) → Writes (optional_type desc)
Writes-optional_type (Desc.option inner) = Writes-desc_type inner
Writes-optional_type (Desc.js name transfer) = Writes-desc_type (Desc.js name transfer)
Writes-optional_type (Desc.postcard t) = Writes-desc_type (Desc.postcard t)
Writes-optional_type (Desc.inline t) = Writes-desc_type (Desc.inline t)
Writes-optional_type (Desc.result o e) = Writes-desc_type (Desc.result o e)

Writes-parameter_items :
    (ret : Return) (args : List Arg) (first : Bool) → Writes (parameter_items ret args first)
unfolding parameter_items
Writes-parameter_items ret [] first = search rendering
Writes-parameter_items ret (a ∷ args) first =
    search
      (rendering, Writes-optional_type, Writes-desc_type, Writes-parameter_items ret args false)
      depth 10

Writes-parameters : (m : Method) → Writes (parameters m)
unfolding parameters
Writes-parameters m = Writes-parameter_items m.ret m.args true

Writes-client_return : (ret : Return) (args : List Arg) → Writes (client_return ret args)
Writes-client_return Return.notify args = search rendering
Writes-client_return (Return.value desc) args = search (rendering, Writes-return_type)
Writes-client_return (Return.stream item) args =
    search (rendering, Writes-desc_type, Uniform-after_arguments) depth 20

Writes-handler_return : (ret : Return) → Writes (handler_return ret)
Writes-handler_return Return.notify = search rendering
Writes-handler_return (Return.value desc) = search (rendering, Writes-return_type) depth 20
Writes-handler_return (Return.stream item) = search (rendering, Writes-desc_type) depth 20

Writes-client_method : (m : Method) → Writes (client_method m)
unfolding client_method
Writes-client_method m = search (rendering, Writes-parameters, Writes-client_return) depth 20

Writes-handler_method : (m : Method) → Writes (handler_method m)
unfolding handler_method
Writes-handler_method m = search (rendering, Writes-parameters, Writes-handler_return) depth 20

Writes-methods :
    (service : Option Service) (handler_side : Bool) → Writes (methods service handler_side)
unfolding methods
Writes-methods service true =
    Writes-all_methods service (λ m index. handler_method m) (λ m i. Writes-handler_method m)
Writes-methods service false =
    Writes-all_methods service (λ m index. client_method m) (λ m i. Writes-client_method m)

Writes-declaration_items : (ds : Declarations) → Writes (declaration_items ds)
unfolding declaration_items
Writes-declaration_items [] = search rendering
Writes-declaration_items (d ∷ ds) =
    search (rendering, Writes-type_body, Writes-declaration_items ds) depth 20

Writes-after_declarations : (ds : Declarations) → Writes (after_declarations ds)
Writes-after_declarations [] = search rendering
Writes-after_declarations (d ∷ ds) = search rendering

Writes-declarations : (ds : Declarations) → Writes (declarations ds)
unfolding declarations
Writes-declarations ds = search (rendering, Writes-declaration_items, Writes-after_declarations)

Writes-fixed_types : Writes fixed_types
unfolding fixed_types
Writes-fixed_types = search rendering depth 20

Writes-handlers_interface : (service : Option Service) → Writes (handlers_interface service)
unfolding handlers_interface
Writes-handlers_interface none = search rendering
Writes-handlers_interface (some s) = search (rendering, Writes-methods) depth 20

Writes-handlers_option : (service : Option Service) → Writes (handlers_option service)
Writes-handlers_option none = search rendering
Writes-handlers_option (some s) = search rendering

Writes-options_type : (e : Endpoint) → Writes (options_type e)
unfolding options_type
Writes-options_type e = search (rendering, Writes-handlers_option) depth 20

Writes-class_declaration : (e : Endpoint) → Writes (class_declaration e)
unfolding class_declaration
Writes-class_declaration e = search (rendering, Writes-methods) depth 20

-- What is rendered once the declarations are collected.
pub Writes-render_dts :
    (e : Endpoint) (ds : Declarations) → collect e ≡ ok ds → Writes (render_dts e)
unfolding render_dts
Writes-render_dts e ds h = rw h (
    search
      (
        rendering, Writes-declarations, Writes-fixed_types, Writes-handlers_interface,
        Writes-options_type, Writes-class_declaration,
      )
      depth 20)

-- Without declarations nothing is rendered.
pub render_dts-panic : (e : Endpoint) (o : Output) → collect e ≡ panic → render_dts e o ≡ panic
unfolding render_dts
render_dts-panic e o h = rw h (fail-seq _ _ o)
