-- ===== src/Js/RenderJs.antt =====
-- The Javascript renderer of web-rpc/src/js/code.rs is uniform in the buffer, and writes where all that it
-- renders is supported.
use web_rpc.Prelude.{
  ℕ, ◌≡◌, Bool, true, false, Option, none, some, List, [], ◌∷◌, Outcome, ok, panic, All, All-mono,
  subst, Text, text,
}
use web_rpc.Js.Output.{Pass}
use web_rpc.Js.Render.{Uniform, Renders, Writes}
use web_rpc.Js.Describe.{Return, Arg, Method, Service, Endpoint}
use web_rpc.Js.Decls.{Declarations}
use web_rpc.Js.Collect.{collect}
use web_rpc.Js.Supported.{
  DescSupported, ReturnSupported, MethodSupported, ServiceSupported, DeclarationsSupported,
}
use web_rpc.Js.CodeModule.{
  use_outcome, schema_table, schemas, argument_descriptions, argument_names, returns, method_entry,
  all_methods, method_table, after_arguments, class_method, render_js,
}
use web_rpc.Js.RenderSchema.{
  rendering, Uniform-fail, Uniform-wire_description, Uniform-schema_entries,
}
use web_rpc.Js.EachMethod.{EachMethod, EachMethod-every, Uniform-all_methods}

-- The collection succeeds, and the renderer meets no `Schema`.
pub record IsSupported (e : Endpoint) : Type 0 where
  pub declarations : Declarations
  pub collected : collect e ≡ ok declarations
  pub bodies : DeclarationsSupported declarations
  pub client : ServiceSupported e.client
  pub service : ServiceSupported e.service

Uniform-use_outcome :
    {p : Bool} (o : Outcome Declarations) (pass : Declarations → Pass)
    → (p ≡ false → (ds : Declarations) × (o ≡ ok ds) × DeclarationsSupported ds)
    → ((ds : Declarations) → (p ≡ false → DeclarationsSupported ds) → Uniform p (pass ds))
    → Uniform p (use_outcome o pass)
Uniform-use_outcome (ok ds) pass h each = each ds (λ e. found (h e))
  where
    found :
        ((ds' : Declarations) × (◌≡◌ {A = Outcome Declarations} (ok ds) (ok ds'))
          × DeclarationsSupported ds')
        → DeclarationsSupported ds
    found (ds', same, s) = let e : ds' ≡ ds = cc in subst DeclarationsSupported e s
Uniform-use_outcome panic pass h each = Uniform-fail (λ e. let (ds, same, s) = h e in cc)

Uniform-schemas : {p : Bool} (e : Endpoint) → (p ≡ false → IsSupported e) → Uniform p (schemas e)
unfolding schemas schema_table
Uniform-schemas e h =
    Uniform-use_outcome (collect e) schema_table
      (λ q. let s = h q in (s.declarations, s.collected, s.bodies))
      (λ ds s. search (rendering, Uniform-schema_entries ds s))

Uniform-argument_descriptions :
    {p : Bool} (args : List Arg) (first : Bool)
    → (p ≡ false → All (λ (a : Arg). DescSupported a.desc) args)
    → Uniform p (argument_descriptions args first)
unfolding argument_descriptions
Uniform-argument_descriptions [] first h = search rendering
Uniform-argument_descriptions (a ∷ args) first h = search (
  rendering,
  Uniform-wire_description a.desc (λ e. (h e).0),
  Uniform-argument_descriptions args false (λ e. (h e).1),
)

Uniform-argument_names :
    {p : Bool} (args : List Arg) (first : Bool) → Uniform p (argument_names args first)
unfolding argument_names
Uniform-argument_names [] first = search rendering
Uniform-argument_names {p} (a ∷ args) first =
    search (rendering, Uniform-argument_names {p = p} args false)

Uniform-returns :
    {p : Bool} (ret : Return) → (p ≡ false → ReturnSupported ret) → Uniform p (returns ret)
Uniform-returns Return.notify h = search rendering
Uniform-returns (Return.value desc) h = Uniform-wire_description desc h
Uniform-returns (Return.stream desc) h = Uniform-wire_description desc h

Uniform-method_entry :
    {p : Bool} (m : Method) → (p ≡ false → MethodSupported m) → Uniform p (method_entry m)
unfolding method_entry
Uniform-method_entry m h =
    search
      (
        rendering,
        Uniform-argument_descriptions m.args true (λ e. (h e).0),
        Uniform-returns m.ret (λ e. (h e).1),
      )
      depth 20

-- What every method of a service has where the pass may not panic, each of them has.
All-under :
    {p : Bool} {A : Type 0} (P : A → Type 0) (xs : List A)
    → (p ≡ false → All P xs)
    → All (λ a. p ≡ false → P a) xs
All-under P [] h = tt
All-under P (x ∷ xs) h = ((λ e. (h e).0), All-under P xs (λ e. (h e).1))

EachMethod-under :
    {p : Bool} (service : Option Service)
    → (p ≡ false → ServiceSupported service)
    → EachMethod (λ m. p ≡ false → MethodSupported m) service
EachMethod-under none h = tt
EachMethod-under {p} (some s) h =
    All-mono (λ g. p ≡ false → All MethodSupported g) (All (λ m. p ≡ false → MethodSupported m))
      (All-under MethodSupported) s.methods (All-under (All MethodSupported) s.methods h)

Uniform-method_table :
    {p : Bool} (name : Text) (service : Option Service)
    → (p ≡ false → ServiceSupported service)
    → Uniform p (method_table name service)
unfolding method_table
Uniform-method_table name service h = search (
  rendering,
  Uniform-all_methods _ service (λ m index. method_entry m) (EachMethod-under service h)
      (λ m i x. Uniform-method_entry m x),
)

pub Uniform-after_arguments : {p : Bool} (args : List Arg) → Uniform p (after_arguments args)
Uniform-after_arguments [] = search rendering
Uniform-after_arguments (a ∷ args) = search rendering

Uniform-class_method : {p : Bool} (m : Method) (index : ℕ) → Uniform p (class_method m index)
unfolding class_method
Uniform-class_method m index =
    search (rendering, Uniform-argument_names, Uniform-after_arguments) depth 40 fits 4000

Uniform-class_methods :
    {p : Bool} (service : Option Service) → Uniform p (all_methods service class_method)
Uniform-class_methods service =
    Uniform-all_methods (λ m. Unit {0}) service class_method
      (EachMethod-every (λ m. Unit {0}) (λ m. tt) service) (λ m i x. Uniform-class_method m i)

Uniform-render_js :
    {p : Bool} (shell : Text) (e : Endpoint)
    → (p ≡ false → IsSupported e)
    → Uniform p (render_js shell e)
unfolding render_js
Uniform-render_js shell e h =
    search
      (
        rendering,
        Uniform-schemas e h,
        Uniform-method_table (text "METHODS") e.client (λ q. (h q).client),
        Uniform-method_table (text "HANDLERS") e.service (λ q. (h q).service),
        Uniform-class_methods e.client,
      )
      depth 40 fits 4000

pub Renders-render_js : (shell : Text) (e : Endpoint) → Renders (render_js shell e)
Renders-render_js shell e = Uniform-render_js shell e (λ q. cc)

pub Writes-render_js : (shell : Text) (e : Endpoint) → IsSupported e → Writes (render_js shell e)
Writes-render_js shell e h = Uniform-render_js shell e (λ q. h)
