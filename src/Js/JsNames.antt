-- ===== src/Js/JsNames.antt =====
-- web-rpc/src/describe.rs, `JsName`: the Typescript names of the Javascript types that have one.
use web_rpc.Prelude.{
  ◌≡◌, ◌⊎◌, refl, sym, ◌∙◌, Bool, true, false, Bool-cases, inl, inr, Option, none, some, List, [],
  ◌∷◌, String, Text, text, if◌then◌else◌, arith,
}
use web_rpc.Js.Names.{str_eq, str_eq_iff, same_bytes}

-- `impl_js_name!`: a type, by its path, and its name.
abbrev pub impl_js_name : List (String × String)
impl_js_name =
    ("wasm_bindgen::JsValue", "unknown")
    ∷ ("js_sys::Object", "object")
    ∷ ("js_sys::Array", "unknown[]")
    ∷ ("js_sys::Function", "Function")
    ∷ ("js_sys::Promise", "Promise<unknown>")
    ∷ ("js_sys::JsString", "string")
    ∷ ("js_sys::Boolean", "boolean")
    ∷ ("js_sys::Number", "number")
    ∷ ("js_sys::BigInt", "bigint")
    ∷ ("js_sys::Symbol", "symbol")
    ∷ ("js_sys::Error", "Error")
    ∷ ("js_sys::EvalError", "EvalError")
    ∷ ("js_sys::RangeError", "RangeError")
    ∷ ("js_sys::ReferenceError", "ReferenceError")
    ∷ ("js_sys::SyntaxError", "SyntaxError")
    ∷ ("js_sys::TypeError", "TypeError")
    ∷ ("js_sys::UriError", "URIError")
    ∷ ("js_sys::Date", "Date")
    ∷ ("js_sys::RegExp", "RegExp")
    ∷ ("js_sys::Map", "Map<unknown, unknown>")
    ∷ ("js_sys::Set", "Set<unknown>")
    ∷ ("js_sys::WeakMap", "WeakMap<object, unknown>")
    ∷ ("js_sys::WeakSet", "WeakSet<object>")
    ∷ ("js_sys::WeakRef", "WeakRef<object>")
    ∷ ("js_sys::Iterator", "Iterator<unknown, unknown, unknown>")
    ∷ ("js_sys::AsyncIterator", "AsyncIterator<unknown, unknown, unknown>")
    ∷ ("js_sys::IteratorNext", "IteratorResult<unknown, unknown>")
    ∷ ("js_sys::Generator", "Generator<unknown, unknown, unknown>")
    ∷ ("js_sys::ArrayBuffer", "ArrayBuffer")
    ∷ ("js_sys::SharedArrayBuffer", "SharedArrayBuffer")
    ∷ ("js_sys::DataView", "DataView")
    ∷ ("js_sys::Int8Array", "Int8Array")
    ∷ ("js_sys::Uint8Array", "Uint8Array")
    ∷ ("js_sys::Uint8ClampedArray", "Uint8ClampedArray")
    ∷ ("js_sys::Int16Array", "Int16Array")
    ∷ ("js_sys::Uint16Array", "Uint16Array")
    ∷ ("js_sys::Int32Array", "Int32Array")
    ∷ ("js_sys::Uint32Array", "Uint32Array")
    ∷ ("js_sys::Float32Array", "Float32Array")
    ∷ ("js_sys::Float64Array", "Float64Array")
    ∷ ("js_sys::BigInt64Array", "BigInt64Array")
    ∷ ("js_sys::BigUint64Array", "BigUint64Array")
    ∷ ("js_sys::Intl::Collator", "Intl.Collator")
    ∷ ("js_sys::Intl::DateTimeFormat", "Intl.DateTimeFormat")
    ∷ ("js_sys::Intl::NumberFormat", "Intl.NumberFormat")
    ∷ ("js_sys::Intl::PluralRules", "Intl.PluralRules")
    ∷ ("js_sys::Intl::RelativeTimeFormat", "Intl.RelativeTimeFormat")
    ∷ ("js_sys::WebAssembly::Memory", "WebAssembly.Memory")
    ∷ ("js_sys::WebAssembly::Module", "WebAssembly.Module")
    ∷ ("js_sys::WebAssembly::Instance", "WebAssembly.Instance")
    ∷ ("js_sys::WebAssembly::Table", "WebAssembly.Table")
    ∷ ("js_sys::WebAssembly::Global", "WebAssembly.Global")
    ∷ ("js_sys::WebAssembly::Tag", "WebAssembly.Tag")
    ∷ ("js_sys::WebAssembly::Exception", "WebAssembly.Exception")
    ∷ ("js_sys::WebAssembly::CompileError", "WebAssembly.CompileError")
    ∷ ("js_sys::WebAssembly::LinkError", "WebAssembly.LinkError")
    ∷ ("js_sys::WebAssembly::RuntimeError", "WebAssembly.RuntimeError")
    ∷ ("web_sys::MessagePort", "MessagePort")
    ∷ ("web_sys::OffscreenCanvas", "OffscreenCanvas")
    ∷ ("web_sys::ImageBitmap", "ImageBitmap")
    ∷ ("web_sys::ReadableStream", "ReadableStream")
    ∷ ("web_sys::WritableStream", "WritableStream")
    ∷ ("web_sys::TransformStream", "TransformStream")
    ∷ []

-- The `NAME` of a type in a list of implementations.
unfoldable pub name_in : Text → List (String × String) → Option Text
name_in type [] = none
name_in type ((path, name) ∷ rest) =
    if str_eq (text path) type then some (text name) else name_in type rest

unfoldable pub is_named : Text → List (String × String) → Bool
is_named name [] = false
is_named name ((path, n) ∷ rest) = if str_eq (text n) name then true else is_named name rest

unfoldable pub has_distinct_names : List (String × String) → Bool
has_distinct_names [] = true
has_distinct_names ((path, n) ∷ rest) =
    if is_named (text n) rest then false else has_distinct_names rest

name_in-is_named :
    (type name : Text) (es : List (String × String))
    → name_in type es ≡ some name
    → is_named name es ≡ true
unfolding name_in is_named
name_in-is_named type name ((path, n) ∷ rest) h = elim (Bool-cases (str_eq (text path) type)) [
  | inl e ↦
      let found : some (text n) ≡ some name = rw e at h in
      let same : str_eq (text n) name ≡ true = (str_eq_iff (text n) name).1 (cc) in rw same
  | inr e ↦
      let later : name_in type rest ≡ some name = rw e at h in
      let ih = name_in-is_named type name rest later in ground arith
]
name_in-is_named type name [] h = cc

-- The first implementation is of the type and has the name, or the type is found in the rest.
hit :
    (path n : String) (rest : List (String × String)) (type name : Text)
    → name_in type ((path, n) ∷ rest) ≡ some name
    → ((text path ≡ type) × (text n ≡ name)) ⊎ (name_in type rest ≡ some name)
unfolding name_in
hit path n rest type name h = elim (Bool-cases (str_eq (text path) type)) [
  | inl e ↦
      let found : some (text n) ≡ some name = rw e at h in
      inl ((str_eq_iff (text path) type).0 e, cc)
  | inr e ↦ inr (rw e at h)
]

distinct-parts :
    (path n : String) (rest : List (String × String))
    → has_distinct_names ((path, n) ∷ rest) ≡ true
    → (is_named (text n) rest ≡ false) × (has_distinct_names rest ≡ true)
unfolding has_distinct_names
distinct-parts path n rest d = (ground arith, ground arith)

clash :
    (n : String) (name : Text) (rest : List (String × String))
    → text n ≡ name
    → is_named (text n) rest ≡ false
    → ¬ (is_named name rest ≡ true)
clash n name rest e fresh named = cc

name_in-inj :
    (a b name : Text) (es : List (String × String))
    → has_distinct_names es ≡ true
    → name_in a es ≡ some name
    → name_in b es ≡ some name
    → a ≡ b
unfolding name_in has_distinct_names
name_in-inj a b name [] d h k = cc
name_in-inj a b name ((path, n) ∷ rest) d h k =
    let (fresh, others) = distinct-parts path n rest d in
    elim (hit path n rest a name h) [
      | inl (pa, na) ↦ elim (hit path n rest b name k) [
        | inl (pb, _) ↦ sym pa ∙ pb
        | inr kb ↦ absurd (clash n name rest na fresh (name_in-is_named b name rest kb))
      ]
      | inr ka ↦ elim (hit path n rest b name k) [
        | inl (_, nb) ↦ absurd (clash n name rest nb fresh (name_in-is_named a name rest ka))
        | inr kb ↦ name_in-inj a b name rest others ka kb
      ]
    ]

impl_js_name-distinct : has_distinct_names impl_js_name ≡ true
unfolding has_distinct_names is_named str_eq same_bytes text
impl_js_name-distinct = refl

-- No two types of the table have the same name.
pub js_name-inj :
    (a b name : Text)
    → name_in a impl_js_name ≡ some name
    → name_in b impl_js_name ≡ some name
    → a ≡ b
js_name-inj a b name h k = name_in-inj a b name impl_js_name impl_js_name-distinct h k
