-- ===== src/Js/Tests.antt =====
-- One endpoint, and instances of the properties of the generated Javascript.
use web_rpc.Prelude.{
  ◌⊎◌, panic, ℕ, zero, suc, ◌↔◌, ◌≤◌, All, arith, ◌≡◌, refl, true, none, some, [], ◌∷◌, ok, length,
  text, codes,
}
use web_rpc.Js.Output.{
  new, put_usize, put_digits, put_byte, put_quoted, put_escaped, put_ident, put, ◌>>◌, idle, fail,
}
use web_rpc.Js.Names.{str_eq, same_bytes, is_ident, is_reserved, any_eq}
use web_rpc.Js.Schema.{NamedType, named, type_of, DataModelType, no_fields, and_field}
use web_rpc.Js.Describe.{Desc, Return, Method, Service, Endpoint}
use web_rpc.Js.CodeModule.{render_js}
use web_rpc.Js.DtsModule.{render_dts}
use web_rpc.Js.Render.{Fills}
use web_rpc.Js.Decls.{
  Declarations, type_rank, get, push, is_declared, is_container, named_type_eq, equality_depth,
  max_declarations,
}
use web_rpc.Js.Collect.{
  collect, collect_service, collect_groups, collect_group, collect_args, collect_desc,
  collect_named_type, visit, validate,
}
use web_rpc.Js.Height.{height}
use web_rpc.Js.Depth.{named_type_eq_iff}
use web_rpc.Js.Resolves.{BodyResolves, ServiceResolves}
use web_rpc.Js.Reached.{IsFound, collect-Resolves, collect-found}
use web_rpc.Js.Distinct.{HasDistinctNames}
use web_rpc.Js.Digits.{WritesDigits, put_usize-WritesDigits}
use web_rpc.Js.TwoPasses.{render_js-Fills, render_dts-Fills, IsSupported-Fills}
use web_rpc.Js.Supported.{Supported, BodySupported, FieldsSupported, DescSupported}
use web_rpc.Js.RenderJs.{IsSupported}

abbrev u32_type : NamedType
u32_type = named (codes "u32") DataModelType.u32

-- `struct Point { x: u32 }`.
abbrev point : NamedType
point = named (codes "Point") (DataModelType.struct (and_field (codes "x") u32_type no_fields))

abbrev move_method : Method
move_method = record {
  name = codes "move";
  args = record { name = codes "to"; desc = Desc.postcard point } ∷ [];
  ret = Return.value (Desc.option (Desc.js (codes "Blob") true));
}

-- The second method is compiled out.
abbrev mover : Service
mover = record { name = codes "Mover"; methods = (move_method ∷ []) ∷ [] ∷ (move_method ∷ []) ∷ [] }

abbrev endpoint : Endpoint
endpoint = record { class = codes "Client"; service = none; client = some mover }

put_usize-120 : put_usize 120 (new 0) ≡ ok (record (new 0) { size = 3 })
unfolding put_usize put_digits put_byte ◌>>◌ idle fail new
put_usize-120 = refl

put_quoted-escapes :
    put_quoted (codes "a\"b") (new 6)
    ≡ ok (record { capacity = 6; bytes = codes "\"a\\\"b\""; size = 6 })
unfolding put_quoted put_escaped put_byte ◌>>◌ idle new
put_quoted-escapes = refl

put_ident-delete :
    put_ident (codes "delete") (new 7)
    ≡ ok (record { capacity = 7; bytes = codes "delete_"; size = 7 })
unfolding put_ident put put_byte ◌>>◌ idle new is_reserved any_eq str_eq same_bytes text
    named_type_eq type_rank
put_ident-delete = refl

render_js-Fills_example :
    ((n : ℕ) → render_js (codes "class Endpoint {}") endpoint (new n) ≡ panic)
    ⊎ Fills (render_js (codes "class Endpoint {}") endpoint)
render_js-Fills_example = render_js-Fills (codes "class Endpoint {}") endpoint

render_dts-Fills_example :
    ((collect endpoint ≡ panic) × ((n : ℕ) → render_dts endpoint (new n) ≡ panic))
    ⊎ ((ds : Declarations) × (collect endpoint ≡ ok ds) × Fills (render_dts endpoint))
render_dts-Fills_example = render_dts-Fills endpoint

endpoint-declares : collect endpoint ≡ ok (point ∷ [])
unfolding collect collect_service collect_groups collect_group collect_args collect_desc
    collect_named_type visit is_declared is_ident is_container get push validate any_eq str_eq
    same_bytes text named_type_eq type_rank
endpoint-declares = refl

collect-Resolves_example :
    All (λ d. BodyResolves (point ∷ []) (type_of d)) (point ∷ [])
    × ServiceResolves (point ∷ []) none
    × ServiceResolves (point ∷ []) (some mover)
collect-Resolves_example = collect-Resolves endpoint (point ∷ []) endpoint-declares

collect-found_example :
    (length (point ∷ []) ≤ max_declarations)
    × All (IsFound (point ∷ [])) (point ∷ [])
    × HasDistinctNames (point ∷ [])
collect-found_example = collect-found endpoint (point ∷ []) endpoint-declares

-- Types that differ 17 levels down, and are taken to be equal.
abbrev options : ℕ → NamedType → NamedType
options zero t = t
options (suc n) t = named (codes "Option<T>") (DataModelType.option (options n t))

deep-equal : named_type_eq (options 16 u32_type) (options 16 point) equality_depth ≡ true
unfolding named_type_eq str_eq same_bytes
deep-equal = refl

named_type_eq_iff_example : (named_type_eq point u32_type 32 ≡ true) ↔ (point ≡ u32_type)
named_type_eq_iff_example = named_type_eq_iff point u32_type 32 (unfold height in omega arith)

put_usize-WritesDigits_example : WritesDigits (put_usize 120) 120
put_usize-WritesDigits_example = put_usize-WritesDigits 120

endpoint-IsSupported : IsSupported endpoint
unfolding BodySupported FieldsSupported DescSupported Supported is_declared is_ident is_container
endpoint-IsSupported = record {
  declarations = point ∷ [];
  collected = endpoint-declares;
  bodies = ((tt, tt), tt);
  client = ((((tt, tt), tt), tt), (tt, ((((tt, tt), tt), tt), tt)));
  service = tt;
}

IsSupported-Fills_example : Fills (render_js (codes "class Endpoint {}") endpoint)
IsSupported-Fills_example =
    IsSupported-Fills (codes "class Endpoint {}") endpoint endpoint-IsSupported
