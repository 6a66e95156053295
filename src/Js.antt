-- ===== src/Js.antt =====
-- web-rpc/src/js and web-rpc/src/describe.rs: the Javascript endpoints rendered from a trait.
pub mod Output
pub mod Render
pub mod Digits
pub mod Names
pub mod Schema
pub mod Describe
pub mod JsNames
pub mod Decls
pub mod Collect
pub mod Visits
pub mod Resolves
pub mod Equal
pub mod Height
pub mod Depth
pub mod Closure
pub mod Distinct
pub mod Walk
pub mod Reached
pub mod Code
pub mod CodeModule
pub mod Dts
pub mod DtsMethods
pub mod DtsModule
pub mod Supported
pub mod RenderSchema
pub mod EachMethod
pub mod RenderJs
pub mod RenderDts
pub mod TwoPasses
mod Tests
