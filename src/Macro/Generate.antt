-- ===== src/Macro/Generate.antt =====
-- web-rpc-macro/src/lib.rs, `ServiceGenerator`: the enums of requests and responses and the description
-- that are generated for a trait, and what the compiler keeps of them.
use web_rpc.Prelude.{Bool, true, List, [], ◌∷◌, ◌++◌, map, if◌then◌else◌, Text, text}
use web_rpc.Js.Describe.{Arg, Return, Method, Service}
use web_rpc.Wire.Platform.{Platform}
use web_rpc.Wire.Params.{Param}
use web_rpc.Macro.Case.{Unicode}
use web_rpc.Macro.Convert.{to_lower_camel, description_ident}
use web_rpc.Macro.Syntax.{Ty}
use web_rpc.Macro.Types.{is_borrowed_serde_ref}
use web_rpc.Macro.Emit.{Resolution, emit_desc, param}
use web_rpc.Macro.Attributes.{Attribute, cfg_attrs, cfg_predicates, all_hold, survives}
use web_rpc.Macro.Method.{
  MethodOutput, notify, value, stream, Argument, RpcMethod, unraw, variant_ident, wire_name,
}

-- The type of a field of the request enum: a reference with the lifetime of the enum, or `WireArg`.
pub data FieldType : Type 0 where
  borrowed : Ty → FieldType
  wire_arg : FieldType

pub record Field : Type 0 where
  pub name : Text
  pub field_type : FieldType

-- A variant of the request enum; the last one, which is never constructed, holds the lifetime.
pub data RequestVariant : Type 0 where
  method_variant : List Attribute → Text → List Field → RequestVariant
  phantom : RequestVariant

pub record ResponseVariant : Type 0 where
  pub attrs : List Attribute
  pub name : Text

unfoldable pub field : Argument → Field
field a = record {
  name = a.ident;
  field_type = if is_borrowed_serde_ref a.ty then borrowed a.ty else wire_arg;
}

-- The names that are generated for a trait.
pub record ServiceGenerator : Type 0 where
  pub trait_ident : Text
  pub service_ident : Text
  pub client_ident : Text
  pub request_ident : Text
  pub response_ident : Text
  pub description_ident : Text

module _ (u : Unicode) where
  unfoldable pub service : Text → ServiceGenerator
  service ident = record {
    trait_ident = ident;
    service_ident = ident ++ text "Service";
    client_ident = ident ++ text "Client";
    request_ident = ident ++ text "Request";
    response_ident = ident ++ text "Response";
    description_ident = description_ident u ident;
  }

  unfoldable pub request_variant : RpcMethod → RequestVariant
  request_variant m = method_variant (cfg_attrs m.attrs) (variant_ident u m) (map field m.args)

  unfoldable pub enum_request : List RpcMethod → List RequestVariant
  enum_request ms = map request_variant ms ++ phantom ∷ []

  unfoldable pub response_variant : RpcMethod → ResponseVariant
  response_variant m = record { attrs = cfg_attrs m.attrs; name = variant_ident u m }

  unfoldable pub enum_response : List RpcMethod → List ResponseVariant
  enum_response ms = map response_variant ms

-- What is left of the enums when the compiler has evaluated the attributes.
module _ (holds : Text → Bool) where
  abbrev request_survives : RequestVariant → Bool
  request_survives (method_variant attrs name fields) = survives holds attrs
  request_survives phantom = true

  unfoldable pub compiled_requests : List RequestVariant → List RequestVariant
  compiled_requests [] = []
  compiled_requests (v ∷ vs) =
      if request_survives v then v ∷ compiled_requests vs else compiled_requests vs

  unfoldable pub compiled_responses : List ResponseVariant → List ResponseVariant
  compiled_responses [] = []
  compiled_responses (v ∷ vs) =
      if survives holds v.attrs then v ∷ compiled_responses vs else compiled_responses vs

module _ (u : Unicode) (p : Platform) (c : Resolution p) where
  unfoldable pub describe_argument : Argument → Arg
  describe_argument a = record {
    name = to_lower_camel u (unraw a.ident);
    desc = emit_desc p c a.ty;
  }

  unfoldable pub describe_output : MethodOutput → Return
  describe_output notify = Return.notify
  describe_output (value ty) = Return.value (emit_desc p c ty)
  describe_output (stream item) = Return.stream (emit_desc p c item)

  unfoldable pub describe : RpcMethod → Method
  describe m = record {
    name = wire_name u m;
    args = map describe_argument m.args;
    ret = describe_output m.output;
  }

  -- The constants of a method: `#[cfg(any())]` never holds.
  unfoldable pub enabled : (Text → Bool) → RpcMethod → Bool
  enabled holds m = all_hold holds (cfg_predicates m.attrs)

  unfoldable pub method_const : (Text → Bool) → RpcMethod → List Method
  unfolding enabled
  method_const holds m = if enabled holds m then describe m ∷ [] else []

  unfoldable pub const_description : (Text → Bool) → Text → List RpcMethod → Service
  const_description holds trait_name ms = record {
    name = trait_name;
    methods = map (method_const holds) ms;
  }

  -- How the generated client packs the arguments of a method, and the server unpacks them.
  unfoldable pub params : RpcMethod → List (Param p)
  params m = map (λ (a : Argument). param p c a.ty) m.args
