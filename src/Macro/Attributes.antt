-- ===== src/Macro/Attributes.antt =====
-- web-rpc-macro/src/lib.rs, the `cfg` attributes of a method, and what the compiler makes of them. A
-- predicate is its tokens.
use web_rpc.Prelude.{
  ◌≡◌, Bool, true, false, ◌&&◌, Option, none, some, List, [], ◌∷◌, if◌then◌else◌, Text,
}

mutual
  pub data Attribute : Type 0 where
    -- `#[cfg(..)]`, or `none` for a form that has no arguments.
    cfg : Option Text → Attribute
    cfg_attr : Text → Attributes → Attribute
    other : Text → Attribute

  pub data Attributes : Type 0 where
    no_more : Attributes
    attribute : Attribute → Attributes → Attributes

unfoldable pub is_cfg_attr : Attribute → Bool
is_cfg_attr (cfg predicate) = true
is_cfg_attr (cfg_attr predicate attributes) = true
is_cfg_attr (other tokens) = false

-- The predicates of the `cfg` attributes whose arguments can be parsed.
unfoldable pub cfg_predicates : List Attribute → List Text
cfg_predicates [] = []
cfg_predicates (cfg (some predicate) ∷ attrs) = predicate ∷ cfg_predicates attrs
cfg_predicates (cfg none ∷ attrs) = cfg_predicates attrs
cfg_predicates (cfg_attr predicate attributes ∷ attrs) = cfg_predicates attrs
cfg_predicates (other tokens ∷ attrs) = cfg_predicates attrs

unfoldable pub cfg_attrs : List Attribute → List Attribute
unfolding is_cfg_attr
cfg_attrs [] = []
cfg_attrs (a ∷ attrs) = if is_cfg_attr a then a ∷ cfg_attrs attrs else cfg_attrs attrs

-- `holds` says which predicates the configuration of the build satisfies.
module _ (holds : Text → Bool) where
  -- `#[cfg(all(..))]`.
  unfoldable pub all_hold : List Text → Bool
  all_hold [] = true
  all_hold (predicate ∷ rest) = holds predicate && all_hold rest

  -- Whether the compiler keeps an item with an attribute. A `cfg` with no predicate does not compile.
  unfoldable mutual
    pub keeps : Attribute → Bool
    keeps (cfg (some predicate)) = holds predicate
    keeps (cfg none) = false
    keeps (cfg_attr predicate attributes) = if holds predicate then keeps_all attributes else true
    keeps (other tokens) = true

    pub keeps_all : Attributes → Bool
    keeps_all no_more = true
    keeps_all (attribute a attributes) = keeps a && keeps_all attributes

  unfoldable pub survives : List Attribute → Bool
  unfolding keeps
  survives [] = true
  survives (a ∷ attrs) = keeps a && survives attrs

  -- An attribute that removes an item only by a predicate of its own.
  abbrev pub IsDirect : Attribute → Type 0
  IsDirect (cfg (some predicate)) = Unit
  IsDirect (cfg none) = ⊥
  IsDirect (cfg_attr predicate attributes) =
      (if holds predicate then keeps_all attributes else true) ≡ true
  IsDirect (other tokens) = Unit
