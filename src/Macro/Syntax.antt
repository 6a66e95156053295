-- ===== src/Macro/Syntax.antt =====
-- The syntax of Rust that web-rpc-macro/src/lib.rs looks at: types and paths. A lifetime and a
-- qualified self, which no function of the macro reads, are left out; an identifier is its text.
use web_rpc.Prelude.{ℕ, ◌+◌, Bool, Option, none, some, Text}

mutual
  pub data Ty : Type 0 where
    path : RustPath → Ty
    -- `&` or `&mut`.
    reference : Bool → Ty → Ty
    slice : Ty → Ty
    impl_trait : Bounds → Ty
    -- Any other type, told apart by a number.
    other : ℕ → Ty

  -- Whether there is a leading `::`, and the segments.
  pub data RustPath : Type 0 where
    rust_path : Bool → Segments → RustPath

  pub data Segments : Type 0 where
    no_segments : Segments
    segment : Text → PathArguments → Segments → Segments

  pub data PathArguments : Type 0 where
    no_arguments : PathArguments
    angle_bracketed : GenericArguments → PathArguments
    parenthesized : PathArguments

  pub data GenericArguments : Type 0 where
    no_generics : GenericArguments
    type_argument : Ty → GenericArguments → GenericArguments
    assoc_type : Text → Ty → GenericArguments → GenericArguments
    other_argument : GenericArguments → GenericArguments

  pub data Bounds : Type 0 where
    no_bounds : Bounds
    trait_bound : RustPath → Bounds → Bounds
    other_bound : Bounds → Bounds

abbrev pub segments : RustPath → Segments
segments (rust_path leading ss) = ss

-- `segments.last()`.
unfoldable pub last_segment : Segments → Option (Text × PathArguments)
last_segment no_segments = none
last_segment (segment ident args no_segments) = some (ident, args)
last_segment (segment _ _ (segment i a rest)) = last_segment (segment i a rest)

-- `Path::is_ident` needs one segment, no arguments and no leading `::`.
unfoldable pub ident_of : RustPath → Option Text
ident_of (rust_path Bool.false (segment ident no_arguments no_segments)) = some ident
ident_of _ = none

unfoldable mutual
  pub size : Ty → ℕ
  size (path p) = 1 + size_path p
  size (reference m t) = 1 + size t
  size (slice t) = 1 + size t
  size (impl_trait bs) = 1 + size_bounds bs
  size (other n) = 1

  pub size_path : RustPath → ℕ
  size_path (rust_path l ss) = 1 + size_segments ss

  pub size_segments : Segments → ℕ
  size_segments no_segments = 1
  size_segments (segment i a ss) = 1 + size_arguments a + size_segments ss

  pub size_arguments : PathArguments → ℕ
  size_arguments no_arguments = 1
  size_arguments (angle_bracketed gs) = 1 + size_generics gs
  size_arguments parenthesized = 1

  pub size_generics : GenericArguments → ℕ
  size_generics no_generics = 1
  size_generics (type_argument t gs) = 1 + size t + size_generics gs
  size_generics (assoc_type i t gs) = 1 + size t + size_generics gs
  size_generics (other_argument gs) = 1 + size_generics gs

  pub size_bounds : Bounds → ℕ
  size_bounds no_bounds = 1
  size_bounds (trait_bound p bs) = 1 + size_path p + size_bounds bs
  size_bounds (other_bound bs) = 1 + size_bounds bs
