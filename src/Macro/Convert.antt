-- ===== src/Macro/Convert.antt =====
-- web-rpc-macro/src/lib.rs, the name conversions, and the name of a description.
use web_rpc.Prelude.{
  ℕ, Bool, true, false, ◌&&◌, Option, none, some, [], ◌∷◌, ◌++◌, ◌==◌, if◌then◌else◌, Text, text,
}
use web_rpc.Js.Names.{str_eq}
use web_rpc.Macro.Case.{Unicode, is_uppercase, to_uppercase, to_lowercase, all_uppercase}

module _ (u : Unicode) where
  -- The loop of `snake_to_camel`.
  unfoldable pub camel_loop : Bool → Text → Text
  camel_loop capitalize_next [] = []
  camel_loop capitalize_next (c ∷ cs) =
      let capitalized = camel_loop true cs in
      let rest = camel_loop false cs in
      if c == b'_'
      then capitalized
      else if capitalize_next
      then to_uppercase u c ++ rest
      else to_lowercase u c ++ rest

  unfoldable pub snake_to_camel : Text → Text
  snake_to_camel name = camel_loop true name

  abbrev lower_first : Text → Text
  lower_first [] = []
  lower_first (first ∷ cs) = to_lowercase u first ++ cs

  unfoldable pub to_lower_camel : Text → Text
  to_lower_camel name = lower_first (snake_to_camel name)

  -- The loop of `snake_case_str`; `later` holds behind index 0.
  unfoldable pub snake_loop : Bool → Text → Text
  snake_loop later [] = []
  snake_loop later (c ∷ cs) =
      (if is_uppercase u c && later then b'_' ∷ [] else [])
      ++ to_lowercase u c
      ++ snake_loop true cs

  unfoldable pub snake_case_str : Text → Text
  snake_case_str name = snake_loop false name

  unfoldable pub screaming_snake_str : Text → Text
  screaming_snake_str name = all_uppercase u (snake_case_str name)

  abbrev prepend : ℕ → Option Text → Option Text
  prepend c none = none
  prepend c (some t) = some (c ∷ t)

  -- `str::strip_suffix`.
  unfoldable pub strip_suffix : Text → Text → Option Text
  strip_suffix suffix [] = if str_eq [] suffix then some [] else none
  strip_suffix suffix (c ∷ cs) =
      let shorter = strip_suffix suffix cs in
      if str_eq (c ∷ cs) suffix then some [] else prepend c shorter

  abbrev or_else : Option Text → Option Text → Option Text
  or_else (some t) other = some t
  or_else none other = other

  abbrev non_empty : Option Text → Option Text
  non_empty (some (c ∷ cs)) = some (c ∷ cs)
  non_empty _ = none

  -- The name of the constant that holds a trait's description (`description_ident`).
  unfoldable pub description_ident : Text → Text
  description_ident trait_name = screaming_snake_str trait_name ++ text "_DESCRIPTION"

  abbrev if_named : Option Text → Option Text
  if_named none = none
  if_named (some trait_name) = some (description_ident trait_name)

  -- `description_path`, on the last segment of the path.
  unfoldable pub description_name : Text → Option Text
  unfolding strip_suffix description_ident
  description_name name =
      if_named (
        non_empty
          (or_else (strip_suffix (text "Service") name) (strip_suffix (text "Client") name)))
