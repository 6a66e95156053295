-- ===== src/Macro/Types.antt =====
-- web-rpc-macro/src/lib.rs, "Signature types": how the macro tells the types of a signature apart.
use web_rpc.Prelude.{
  Bool, true, false, Option, none, some, List, [], ◌∷◌, if◌then◌else◌, Text, text,
}
use web_rpc.Js.Names.{str_eq}
use web_rpc.Macro.Syntax.{
  Ty, path, reference, slice, impl_trait, PathArguments, no_arguments, angle_bracketed,
  parenthesized, GenericArguments, no_generics, type_argument, assoc_type, other_argument, Bounds,
  no_bounds, trait_bound, other_bound, segments, last_segment, ident_of,
}

abbrev pub generics_of : PathArguments → Option GenericArguments
generics_of (angle_bracketed gs) = some gs
generics_of no_arguments = none
generics_of parenthesized = none

-- The first associated type `Item`.
unfoldable pub item_argument : GenericArguments → Option Ty
item_argument no_generics = none
item_argument (assoc_type ident ty gs) =
    if str_eq ident (text "Item") then some ty else item_argument gs
item_argument (type_argument ty gs) = item_argument gs
item_argument (other_argument gs) = item_argument gs

abbrev item_of : Option GenericArguments → Option Ty
item_of none = none
item_of (some gs) = item_argument gs

abbrev or_later : Option Ty → Option Ty → Option Ty
or_later none later = later
or_later (some ty) later = some ty

-- One round of the loop over the bounds, given what the later rounds find. The `?` on a path with no
-- segment ends the search.
abbrev pub bound_item : Option (Text × PathArguments) → Option Ty → Option Ty
bound_item none later = none
bound_item (some (ident, arguments)) later =
    if str_eq ident (text "Stream") then or_later (item_of (generics_of arguments)) later else later

unfoldable pub bounds_item : Bounds → Option Ty
unfolding item_argument
bounds_item no_bounds = none
bounds_item (other_bound bs) = bounds_item bs
bounds_item (trait_bound p bs) = bound_item (last_segment (segments p)) (bounds_item bs)

unfoldable pub stream_item_type : Ty → Option Ty
unfolding bounds_item
stream_item_type (impl_trait bs) = bounds_item bs
stream_item_type _ = none

abbrev pub cons_type : Ty → Option (List Ty) → Option (List Ty)
cons_type ty none = none
cons_type ty (some tys) = some (ty ∷ tys)

-- `collect` into an `Option`.
unfoldable pub all_types : GenericArguments → Option (List Ty)
all_types no_generics = some []
all_types (type_argument ty gs) = cons_type ty (all_types gs)
all_types (assoc_type ident ty gs) = none
all_types (other_argument gs) = none

abbrev pub all_types_of : Option GenericArguments → Option (List Ty)
all_types_of none = none
all_types_of (some gs) = all_types gs

abbrev pub segment_types : Option (Text × PathArguments) → Text → Option (List Ty)
segment_types none wrapper = none
segment_types (some (ident, arguments)) wrapper =
    if str_eq ident wrapper then all_types_of (generics_of arguments) else none

unfoldable pub type_arguments : Ty → Text → Option (List Ty)
unfolding all_types last_segment
type_arguments (path p) wrapper = segment_types (last_segment (segments p)) wrapper
type_arguments _ wrapper = none

abbrev pub one_type : Option (List Ty) → Option Ty
one_type (some (inner ∷ [])) = some inner
one_type _ = none

abbrev pub two_types : Option (List Ty) → Option (Ty × Ty)
two_types (some (ok ∷ err ∷ [])) = some (ok, err)
two_types _ = none

unfoldable pub option_inner_type : Ty → Option Ty
option_inner_type ty = one_type (type_arguments ty (text "Option"))

unfoldable pub result_inner_types : Ty → Option (Ty × Ty)
result_inner_types ty = two_types (type_arguments ty (text "Result"))

abbrev pub wrapped : Option Ty → Bool → Option (Ty × Bool) → Option (Ty × Bool)
wrapped none transfer next = next
wrapped (some inner) transfer next = some (inner, transfer)

-- The two rounds of the loop over the wrappers.
unfoldable pub js_inner_type : Ty → Option (Ty × Bool)
js_inner_type ty =
    wrapped (one_type (type_arguments ty (text "Post"))) false
      (wrapped (one_type (type_arguments ty (text "Transfer"))) true none)

unfoldable pub is_ident : Option Text → Text → Bool
is_ident none name = false
is_ident (some ident) name = str_eq ident name

unfoldable pub is_u8 : Ty → Bool
unfolding is_ident
is_u8 (path p) = is_ident (ident_of p) (text "u8")
is_u8 _ = false

unfoldable pub is_borrowed_serde_ref : Ty → Bool
unfolding is_ident is_u8
is_borrowed_serde_ref (reference m (path p)) = is_ident (ident_of p) (text "str")
is_borrowed_serde_ref (reference m (slice element)) = is_u8 element
is_borrowed_serde_ref _ = false
