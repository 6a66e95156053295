-- ===== src/Js/EachMethod.antt =====
-- The loops over a service's methods in web-rpc/src/js/code.rs and dts.rs stay in range.
use web_rpc.Prelude.{
  ℕ, zero, suc, ◌+◌, ◌<◌, ◌≤◌, ◌≡◌, refl, ap, ◌∙◌, Bool, Option, none, some, List, [], ◌∷◌, ok,
  length, get_elem?, All, All-append, arith,
}
use mathlib.Core.List.{flatten}
use web_rpc.Js.Output.{Pass}
use web_rpc.Js.Render.{Uniform, Writes, Uniform-idle, Uniform-seq}
use web_rpc.Js.Describe.{Method, Service, method_count, method_at, index_of, method_at-flatten}
use web_rpc.Js.CodeModule.{each_method, all_methods}

get_elem?-found {κ} :
    (P : Method → Type κ) (ms : List Method) (i : ℕ)
    → All P ms
    → i < length ms
    → (m : Method) × (get_elem? ms i ≡ some m) × P m
get_elem?-found P [] i h lt = absurd (omega arith)
get_elem?-found P (m ∷ ms) zero h lt = (m, refl, h.0)
get_elem?-found P (m ∷ ms) (suc i) h lt = get_elem?-found P ms i h.1 (omega arith)

All-flatten {κ} :
    (P : Method → Type κ) (gs : List (List Method)) → All (All P) gs → All P (flatten gs)
unfolding flatten
All-flatten P [] h = tt
All-flatten P (g ∷ gs) h = All-append P g (flatten gs) h.0 (All-flatten P gs h.1)

method_at-found {κ} :
    (P : Method → Type κ) (s : Service) (i : ℕ)
    → All (All P) s.methods
    → i < method_count s
    → (m : Method) × (method_at s i ≡ ok m) × P m
method_at-found P s i h lt =
    let (count, at) = method_at-flatten s i in
    let (m, e, x) =
      get_elem?-found P (flatten s.methods) i (All-flatten P s.methods h) (omega arith) in
    (m, at ∙ ap index_of e, x)

Uniform-each_method {κ} :
    {p : Bool} (P : Method → Type κ) (s : Service) (pass : Method → ℕ → Pass) (count index : ℕ)
    → All (All P) s.methods
    → index + count ≤ method_count s
    → ((m : Method) (i : ℕ) → P m → Uniform p (pass m i))
    → Uniform p (each_method s pass count index)
unfolding each_method
Uniform-each_method P s pass zero index h room each = Uniform-idle
Uniform-each_method P s pass (suc count) index h room each =
    let (m, e, x) = method_at-found P s index h (omega arith) in
    rw e (
      Uniform-seq (each m index x)
        (Uniform-each_method P s pass count (index + 1) h (omega arith) each))

abbrev pub EachMethod {κ} : (Method → Type κ) → Option Service → Type κ
EachMethod P none = Unit
EachMethod P (some s) = All (All P) s.methods

-- A loop over methods of which all have a property.
pub Uniform-all_methods {κ} :
    {p : Bool} (P : Method → Type κ) (service : Option Service) (pass : Method → ℕ → Pass)
    → EachMethod P service
    → ((m : Method) (i : ℕ) → P m → Uniform p (pass m i))
    → Uniform p (all_methods service pass)
Uniform-all_methods P none pass h each = Uniform-idle
Uniform-all_methods P (some s) pass h each =
    Uniform-each_method P s pass (method_count s) 0 h (omega arith) each

-- A property of all methods.
pub All-every {ℓ κ} : {A : Type ℓ} (P : A → Type κ) → ((a : A) → P a) → (xs : List A) → All P xs
All-every P f [] = tt
All-every P f (x ∷ xs) = (f x, All-every P f xs)

pub EachMethod-every {κ} :
    (P : Method → Type κ) → ((m : Method) → P m) → (service : Option Service) → EachMethod P service
EachMethod-every P f none = tt
EachMethod-every P f (some s) = All-every (All P) (All-every P f) s.methods

pub Writes-all_methods :
    (service : Option Service) (pass : Method → ℕ → Pass)
    → ((m : Method) (i : ℕ) → Writes (pass m i))
    → Writes (all_methods service pass)
Writes-all_methods service pass each =
    Uniform-all_methods (λ m. Unit {0}) service pass
      (EachMethod-every (λ m. Unit {0}) (λ m. tt) service) (λ m i x. each m i)
