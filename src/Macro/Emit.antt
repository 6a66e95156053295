-- ===== src/Macro/Emit.antt =====
-- web-rpc-macro/src/lib.rs, "Routing": what is generated for a type of a signature. `emit_encode`,
-- `emit_decode` and `emit_desc` make the same choice at each type.
use web_rpc.Prelude.{ℕ, zero, suc, Bool, true, Option, none, some, if◌then◌else◌, Text, text}
use web_rpc.Js.Schema.{NamedType}
use web_rpc.Js.Describe.{Desc}
use web_rpc.Wire.Platform.{Platform}
use web_rpc.Wire.Value
use web_rpc.Wire.Value.{Route}
use web_rpc.Wire.Params.{Param, borrowed, routed}
use web_rpc.Macro.Syntax.{
  Ty, path, reference, rust_path, segment, no_arguments, no_segments, ident_of, size,
}
use web_rpc.Macro.Types.{
  option_inner_type, result_inner_types, js_inner_type, is_ident, is_borrowed_serde_ref,
}

-- How the macro reads a type.
pub data Wrapping : Type 0 where
  option : Ty → Wrapping
  result : Ty → Ty → Wrapping
  js : Ty → Bool → Wrapping
  plain : Wrapping

abbrev pub else_plain : Option (Ty × Bool) → Wrapping
else_plain (some (inner, transfer)) = js inner transfer
else_plain none = plain

abbrev pub else_js : Option (Ty × Ty) → Option (Ty × Bool) → Wrapping
else_js (some (ok, err)) inner = result ok err
else_js none inner = else_plain inner

abbrev pub else_result : Option Ty → Option (Ty × Ty) → Option (Ty × Bool) → Wrapping
else_result (some inner) results inner' = option inner
else_result none results inner = else_js results inner

-- The chain of tests at the head of each of the three functions.
unfoldable pub wrapping : Ty → Wrapping
wrapping ty = else_result (option_inner_type ty) (result_inner_types ty) (js_inner_type ty)

-- `::std::string::String`.
abbrev pub string_type : Ty
string_type = path (
    rust_path true (
      segment (text "std") no_arguments
        (segment (text "string") no_arguments (segment (text "String") no_arguments no_segments))))

-- The type whose schema stands for a borrowed one.
unfoldable pub schema_type : Ty → Ty
unfolding is_ident
schema_type (reference m (path p)) =
    if is_ident (ident_of p) (text "str") then string_type else path p
schema_type (reference m t) = t
schema_type t = t

-- What the compiler finds for a type that the macro names: its serde implementation, its class, its
-- `Schema::SCHEMA` and its `JsName::NAME`.
pub record Resolution (p : Platform) : Type 0 where
  pub leaf : Ty → p.Leaf
  pub class : Ty → p.Class
  pub schema : Ty → NamedType
  pub js_name : Ty → Text

-- A recursion along the inner types, on fuel.
unfoldable pub walk {ℓ} : {A : Type ℓ} → ((Ty → A) → Ty → Wrapping → A) → (Ty → A) → ℕ → Ty → A
walk step base zero ty = base ty
walk step base (suc fuel) ty = step (walk step base fuel) ty (wrapping ty)

module _ (p : Platform) (c : Resolution p) where
  -- One call of `emit_desc`, given what the calls inside return.
  abbrev pub desc_by : (Ty → Desc) → Ty → Wrapping → Desc
  desc_by inside ty (option inner) = Desc.option (inside inner)
  desc_by inside ty (result ok err) = Desc.result (inside ok) (inside err)
  desc_by inside ty (js inner transfer) = Desc.js (c.js_name inner) transfer
  desc_by inside ty plain =
      if is_borrowed_serde_ref ty
      then Desc.inline (c.schema (schema_type ty))
      else Desc.postcard (c.schema ty)

  -- One call of `emit_encode` or `emit_decode`.
  abbrev pub route_by : (Ty → Route p) → Ty → Wrapping → Route p
  route_by inside ty (option inner) = Value.option (inside inner)
  route_by inside ty (result ok err) = Value.result (inside ok) (inside err)
  route_by inside ty (js inner transfer) = Value.js transfer (c.class inner)
  route_by inside ty plain = Value.leaf (c.leaf ty)

  -- What is taken where the fuel has run out.
  abbrev pub no_desc : Ty → Desc
  no_desc ty = Desc.postcard (c.schema ty)

  abbrev pub no_route : Ty → Route p
  no_route ty = Value.leaf (c.leaf ty)

  unfoldable pub emit_desc : Ty → Desc
  emit_desc ty = walk desc_by no_desc (size ty) ty

  unfoldable pub route : Ty → Route p
  route ty = walk route_by no_route (size ty) ty

  -- How `struct_client` and `struct_server` treat an argument.
  unfoldable pub param : Ty → Param p
  param ty = if is_borrowed_serde_ref ty then borrowed (c.leaf ty) else routed (route ty)
