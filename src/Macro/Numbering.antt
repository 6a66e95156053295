-- ===== src/Macro/Numbering.antt =====
-- One number of a method: its index in the description, and those of its variants.
use mathlib.Core.List.{flatten}
use web_rpc.Prelude.{
  ℕ, zero, suc, ◌≡◌, refl, ap, ◌∙◌, ◌⊎◌, inl, inr, Bool, none, some, List, [], ◌∷◌, ◌++◌, map, ok,
  panic, if◌then◌else◌, get_elem?, All, Bool-cases, Text,
}
use web_rpc.Js.Describe.{method_at, method_at-flatten, index_of}
use web_rpc.Wire.Platform.{Platform}
use web_rpc.Macro.Case.{Unicode}
use web_rpc.Macro.Emit.{Resolution}
use web_rpc.Macro.Attributes.{
  Attribute, cfg, cfg_attr, other, is_cfg_attr, cfg_attrs, cfg_predicates, all_hold, keeps,
  survives, IsDirect,
}
use web_rpc.Macro.Method.{RpcMethod}
use web_rpc.Macro.Generate.{
  phantom, request_variant, enum_request, response_variant, enum_response, compiled_requests,
  compiled_responses, describe, enabled, method_const, const_description,
}

module _ (holds : Text → Bool) where
  cfg_attrs-survives :
      (attrs : List Attribute) → survives holds (cfg_attrs attrs) ≡ survives holds attrs
  unfolding survives cfg_attrs keeps is_cfg_attr
  cfg_attrs-survives [] = refl
  cfg_attrs-survives (cfg (some predicate) ∷ attrs) = rw (cfg_attrs-survives attrs)
  cfg_attrs-survives (cfg none ∷ attrs) = refl
  cfg_attrs-survives (cfg_attr predicate attributes ∷ attrs) = rw (cfg_attrs-survives attrs)
  cfg_attrs-survives (other tokens ∷ attrs) = cfg_attrs-survives attrs

  predicates-survives :
      (attrs : List Attribute)
      → All (IsDirect holds) attrs
      → all_hold holds (cfg_predicates attrs) ≡ survives holds attrs
  unfolding survives cfg_predicates keeps all_hold
  predicates-survives [] h = refl
  predicates-survives (cfg (some predicate) ∷ attrs) h = rw (predicates-survives attrs h.1)
  predicates-survives (cfg none ∷ attrs) h = absurd h.0
  predicates-survives (cfg_attr predicate attributes ∷ attrs) h =
      rw h.0 (predicates-survives attrs h.1)
  predicates-survives (other tokens ∷ attrs) h = predicates-survives attrs h.1

  -- The methods whose items the compiler keeps.
  kept : List RpcMethod → List RpcMethod
  kept [] = []
  kept (m ∷ ms) = if survives holds m.attrs then m ∷ kept ms else kept ms

  module _ (u : Unicode) where
    requests-kept :
        (ms : List RpcMethod)
        → compiled_requests holds (enum_request u ms) ≡ enum_request u (kept ms)
    unfolding compiled_requests enum_request request_variant kept
    requests-kept [] = refl
    requests-kept (m ∷ ms) = elim (Bool-cases (survives holds m.attrs)) [
      | inl s ↦
          rw (cfg_attrs-survives m.attrs, s) (ap (◌∷◌ (request_variant u m)) (requests-kept ms))
      | inr d ↦ rw (cfg_attrs-survives m.attrs, d) (requests-kept ms)
    ]

    responses-kept :
        (ms : List RpcMethod)
        → compiled_responses holds (enum_response u ms) ≡ enum_response u (kept ms)
    unfolding compiled_responses enum_response response_variant kept
    responses-kept [] = refl
    responses-kept (m ∷ ms) = elim (Bool-cases (survives holds m.attrs)) [
      | inl s ↦
          rw (cfg_attrs-survives m.attrs, s) (ap (◌∷◌ (response_variant u m)) (responses-kept ms))
      | inr d ↦ rw (cfg_attrs-survives m.attrs, d) (responses-kept ms)
    ]

    module _ (p : Platform) (c : Resolution p) where
      methods-kept :
          (ms : List RpcMethod)
          → All (λ m. All (IsDirect holds) m.attrs) ms
          → flatten (map (method_const u p c holds) ms) ≡ map (describe u p c) (kept ms)
      unfolding flatten method_const enabled kept
      methods-kept [] h = refl
      methods-kept (m ∷ ms) h = elim (Bool-cases (survives holds m.attrs)) [
        | inl s ↦
            rw (predicates-survives m.attrs h.0, s)
              (ap (◌∷◌ (describe u p c m)) (methods-kept ms h.1))
        | inr d ↦ rw (predicates-survives m.attrs h.0, d) (methods-kept ms h.1)
      ]

at_map {ℓ κ} :
    {A : Type ℓ} {B : Type κ} (f : A → B) (xs : List A) (i : ℕ)
    → ((get_elem? xs i ≡ none) × (get_elem? (map f xs) i ≡ none))
      ⊎ ((x : A) × (get_elem? xs i ≡ some x) × (get_elem? (map f xs) i ≡ some (f x)))
at_map f [] i = inl (refl, refl)
at_map f (x ∷ xs) zero = inr (x, refl, refl)
at_map f (x ∷ xs) (suc i) = at_map f xs i

at_map_before {ℓ κ} :
    {A : Type ℓ} {B : Type κ} (f : A → B) (xs : List A) (ys : List B) (i : ℕ) {x : A}
    → get_elem? xs i ≡ some x
    → get_elem? (map f xs ++ ys) i ≡ some (f x)
at_map_before f [] ys i h = cc
at_map_before f (x ∷ xs) ys zero h = let e : some x ≡ some _ = h in cc
at_map_before f (x ∷ xs) ys (suc i) h = at_map_before f xs ys i h

-- Where every attribute of the methods removes an item only by a `cfg` of its own, a number stands for
-- the same method in the description, in the requests and in the responses that the compiler keeps, and
-- a number for which the description has no method stands for no response.
pub method_at-numbers :
    (holds : Text → Bool) (u : Unicode) (p : Platform) (c : Resolution p) (trait_name : Text)
    (ms : List RpcMethod) (i : ℕ)
    → All (λ m. All (IsDirect holds) m.attrs) ms
    → let description = const_description u p c holds trait_name ms in
      let responses = compiled_responses holds (enum_response u ms) in
      ((method_at description i ≡ panic) × (get_elem? responses i ≡ none))
      ⊎ ((m : RpcMethod) × (method_at description i ≡ ok (describe u p c m))
          × (get_elem? (compiled_requests holds (enum_request u ms)) i ≡ some (request_variant u m))
          × (get_elem? responses i ≡ some (response_variant u m)))
unfolding const_description enum_request enum_response
method_at-numbers holds u p c trait_name ms i h =
    let numbered = (method_at-flatten (const_description u p c holds trait_name ms) i).1 in
    let left = numbered ∙ ap (λ xs. index_of (get_elem? xs i)) (methods-kept holds u p c ms h) in
    let responses = ap (λ xs. get_elem? xs i) (responses-kept holds u ms) in
    let requests = ap (λ xs. get_elem? xs i) (requests-kept holds u ms) in
    elim (at_map (describe u p c) (kept holds ms) i) [
      | inl (gone, e) ↦ inl (
        left ∙ ap index_of e,
        elim (at_map (response_variant u) (kept holds ms) i) [
          | inl (a, b) ↦ responses ∙ b
          | inr (x, a, b) ↦ absurd (cc)
        ],
      )
      | inr (m, at, e) ↦ inr (
        m,
        left ∙ ap index_of e,
        requests ∙ at_map_before (request_variant u) (kept holds ms) (phantom ∷ []) i at,
        elim (at_map (response_variant u) (kept holds ms) i) [
          | inl (a, b) ↦ absurd (cc)
          | inr (x, a, b) ↦ let same : m ≡ x = cc in rw same (responses ∙ b)
        ],
      )
    ]
