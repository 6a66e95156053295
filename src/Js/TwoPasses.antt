-- ===== src/Js/TwoPasses.antt =====
-- The two passes over an endpoint (`render_js` and `render_dts` of web-rpc/src/js/mod.rs): the first
-- measures with capacity 0, the second has the measured size for its capacity.
use web_rpc.Prelude.{ℕ, refl, inl, inr, Outcome, ◌≡◌, ◌⊎◌, ok, panic, Text}
use web_rpc.Js.Output.{new}
use web_rpc.Js.Render.{Fills, Renders-two_passes, Writes-Fills}
use web_rpc.Js.Decls.{Declarations}
use web_rpc.Js.Collect.{collect}
use web_rpc.Js.Describe.{Endpoint}
use web_rpc.Js.CodeModule.{render_js}
use web_rpc.Js.DtsModule.{render_dts}
use web_rpc.Js.RenderJs.{Renders-render_js, IsSupported, Writes-render_js}
use web_rpc.Js.RenderDts.{Writes-render_dts, render_dts-panic}

-- For every endpoint and shell, rendering the Javascript module panics in every buffer; or the first
-- pass counts the bytes of a text, and the second pass, in a buffer of that size, writes just that text.
pub render_js-Fills :
    (shell : Text) (e : Endpoint)
    → ((n : ℕ) → render_js shell e (new n) ≡ panic) ⊎ Fills (render_js shell e)
render_js-Fills shell e = Renders-two_passes (render_js shell e) (Renders-render_js shell e)

-- For every endpoint, either the collection of its declarations panics, and then rendering the Typescript
-- declarations panics in every buffer; or it succeeds, and then the first pass counts the bytes of a text,
-- and the second pass, in a buffer of that size, writes just that text.
pub render_dts-Fills :
    (e : Endpoint)
    → ((collect e ≡ panic) × ((n : ℕ) → render_dts e (new n) ≡ panic))
      ⊎ ((ds : Declarations) × (collect e ≡ ok ds) × Fills (render_dts e))
render_dts-Fills e = go (collect e) refl
  where
    go :
        (found : Outcome Declarations)
        → collect e ≡ found
        → ((collect e ≡ panic) × ((n : ℕ) → render_dts e (new n) ≡ panic))
          ⊎ ((ds : Declarations) × (collect e ≡ ok ds) × Fills (render_dts e))
    go panic h = inl (h, λ n. render_dts-panic e (new n) h)
    go (ok ds) h = inr (ds, h, Writes-Fills (render_dts e) (Writes-render_dts e ds h))

-- For every endpoint whose collection succeeds, and in which the renderer meets no `Schema` in the bodies of
-- the declarations or in place, rendering the Javascript module succeeds: the first pass counts the bytes of
-- a text, and the second pass, in a buffer of that size, writes just that text.
pub IsSupported-Fills : (shell : Text) (e : Endpoint) → IsSupported e → Fills (render_js shell e)
IsSupported-Fills shell e h = Writes-Fills (render_js shell e) (Writes-render_js shell e h)
