-- ===== src/Macro/Expand.antt =====
-- The expansion of `js::endpoint!` on the names that `#[web_rpc::service]` generates.
use web_rpc.Prelude.{
  ◌≡◌, ◌≢◌, refl, ap, ◌∙◌, sym, inl, inr, Bool, Option, none, some, List, [], ◌∷◌, ◌++◌, ok, panic,
  String, Text, text, All, Option-cases,
}
use web_rpc.Macro.Case.{Unicode}
use web_rpc.Macro.Convert.{snake_to_camel, snake_case_str, description_ident, description_name}
use web_rpc.Macro.Camel.{IsCamel, snake_to_camel-snake_case_str}
use web_rpc.Macro.Description.{description_name-generated}
use web_rpc.Macro.Syntax.{
  RustPath, rust_path, Segments, no_segments, segment, PathArguments, no_arguments, segments,
  last_segment,
}
use web_rpc.Macro.Endpoint.{
  accepted, EndpointArgs, parse_args, description_segments, description_path, description,
  guard_ident, expansion, class_path, endpoint,
}
use web_rpc.Macro.Given.{
  Given, only_service, only_client, service_first, client_first, parse_args_iff,
}

-- A path up to its last segment.
abbrev pub ended : Segments → Text → PathArguments → Segments
ended no_segments name args = segment name args no_segments
ended (segment i a ss) name args = segment i a (ended ss name args)

-- A generated name as written: a leading `::`, the modules, the trait's name and generic arguments.
pub record Mention : Type 0 where
  pub leading : Bool
  pub modules : Segments
  pub trait_name : Text
  pub args : PathArguments

module _ (u : Unicode) where
  abbrev pub mention : String → Mention → RustPath
  mention suffix m = rust_path m.leading (ended m.modules (m.trait_name ++ text suffix) m.args)

  description_segments-ended :
      (before : Segments) (name described : Text) (args : PathArguments)
      → description_name u name ≡ some described
      → description_segments u (ended before name args)
        ≡ accepted (ended before described no_arguments)
  unfolding description_segments
  description_segments-ended no_segments name described args h = rw h
  description_segments-ended (segment i a no_segments) name described args h = rw h
  description_segments-ended (segment i a (segment j b ss)) name described args h =
      rw (description_segments-ended (segment j b ss) name described args h)

  last_segment-ended :
      (before : Segments) (name : Text) (args : PathArguments)
      → last_segment (ended before name args) ≡ some (name, args)
  unfolding last_segment
  last_segment-ended no_segments name args = refl
  last_segment-ended (segment i a no_segments) name args = refl
  last_segment-ended (segment i a (segment j b ss)) name args =
      last_segment-ended (segment j b ss) name args

  -- The path of the constant that describes the trait.
  abbrev pub described : Mention → RustPath
  described m =
      rust_path m.leading (ended m.modules (description_ident u m.trait_name) no_arguments)

  abbrev pub mention_if : String → Option Mention → Option RustPath
  mention_if suffix none = none
  mention_if suffix (some m) = some (mention suffix m)

  abbrev pub described_if : Option Mention → Option RustPath
  described_if none = none
  described_if (some m) = some (described m)

  abbrev pub IsNamed : Option Mention → Type 0
  IsNamed none = Unit
  IsNamed (some m) = m.trait_name ≢ []

  service-described :
      (m : Mention)
      → m.trait_name ≢ []
      → description_path u (mention "Service" m) ≡ accepted (described m)
  unfolding description_path
  service-described m h = rw (
      description_segments-ended m.modules (m.trait_name ++ text "Service")
        (description_ident u m.trait_name) m.args (description_name-generated u m.trait_name h).0)

  client-described :
      (m : Mention)
      → m.trait_name ≢ []
      → description_path u (mention "Client" m) ≡ accepted (described m)
  unfolding description_path
  client-described m h = rw (
      description_segments-ended m.modules (m.trait_name ++ text "Client")
        (description_ident u m.trait_name) m.args (description_name-generated u m.trait_name h).1)

  service_if :
      (s : Option Mention)
      → IsNamed s
      → description u (mention_if "Service" s) ≡ accepted (described_if s)
  unfolding description
  service_if none h = refl
  service_if (some m) h = rw (service-described m h)

  -- On the names of a generated service and a generated client, wherever they stand in a path, the
  -- macro expands without a panic or an error: each description is the constant of the trait, in the same
  -- module and without generic arguments, and the class has the name of the client. With no client, it has
  -- the name of the service.
  pub endpoint-generated :
      (s : Option Mention) (m : Mention)
      → IsNamed s
      → m.trait_name ≢ []
      → (endpoint u
            (record { service = mention_if "Service" s; client = some (mention "Client" m) })
          ≡ ok (
              accepted (
                expansion u (m.trait_name ++ text "Client") (described_if s) (some (described m)))))
        × (endpoint u (record { service = some (mention "Service" m); client = none })
            ≡ ok
                (accepted (expansion u (m.trait_name ++ text "Service") (some (described m)) none)))
  unfolding endpoint description
  endpoint-generated s m hs h = (
    rw (
      last_segment-ended m.modules (m.trait_name ++ text "Client") m.args,
      service_if s hs,
      client-described m h,
    ),
    rw (
      last_segment-ended m.modules (m.trait_name ++ text "Service") m.args,
      service-described m h,
    ),
  )

  -- What `syn` gives as a path has a segment.
  abbrev pub HasSegment : Text × RustPath → Type 0
  HasSegment (key, path) = last_segment (segments path) ≢ none

  unwrapped :
      (a : EndpointArgs) (path : RustPath)
      → class_path u a.client a.service ≡ some path
      → last_segment (segments path) ≢ none
      → endpoint u a ≢ panic
  unfolding endpoint
  unwrapped a path e h = elim (Option-cases (last_segment (segments path))) [
    | inl gone ↦ absurd (h gone)
    | inr (x, there) ↦ rw (e, there) (λ p. cc)
  ]

  Given-ne-panic :
      {es : List (Text × RustPath)} {a : EndpointArgs}
      → Given es a
      → All HasSegment es
      → endpoint u a ≢ panic
  Given-ne-panic (only_service s) h =
      unwrapped (record { service = some s; client = none }) s refl h.0
  Given-ne-panic (only_client c) h =
      unwrapped (record { service = none; client = some c }) c refl h.0
  Given-ne-panic (service_first s c) h =
      unwrapped (record { service = some s; client = some c }) c refl h.1.0
  Given-ne-panic (client_first s c) h =
      unwrapped (record { service = some s; client = some c }) c refl h.0

  -- On arguments that the macro has accepted, with paths that have a segment, its expansion does not
  -- panic.
  pub endpoint-ne-panic :
      (es : List (Text × RustPath)) (a : EndpointArgs)
      → parse_args es ≡ accepted a
      → All HasSegment es
      → endpoint u a ≢ panic
  endpoint-ne-panic es a parsed h = Given-ne-panic ((parse_args_iff es a).0 parsed) h

  append_cancel : (xs ys zs : Text) → xs ++ ys ≡ xs ++ zs → ys ≡ zs
  append_cancel [] ys zs h = h
  append_cancel (x ∷ xs) ys zs h = append_cancel xs ys zs (cc)

  -- Two ASCII class names in CamelCase whose endpoints have the same guard symbol are the same name.
  pub guard_ident-inj :
      (a b : Text) → IsCamel a → IsCamel b → guard_ident u a ≡ guard_ident u b → a ≡ b
  unfolding guard_ident
  guard_ident-inj a b ha hb h =
      let same = append_cancel (text "__web_rpc_") (snake_case_str u a) (snake_case_str u b) h in
      sym (snake_to_camel-snake_case_str u a ha)
      ∙ ap (snake_to_camel u) same
      ∙ snake_to_camel-snake_case_str u b hb
