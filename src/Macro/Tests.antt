-- ===== src/Macro/Tests.antt =====
-- Names, and instances of the properties of their conversions.
use web_rpc.Prelude.{◌≡◌, refl, arith, false, [], ◌∷◌, text, codes}
use web_rpc.Macro.Case.{Unicode, is_uppercase, to_uppercase, to_lowercase, all_uppercase}
use web_rpc.Macro.Convert.{
  camel_loop, snake_to_camel, to_lower_camel, snake_loop, snake_case_str, screaming_snake_str,
  description_ident,
}
use web_rpc.Macro.Camel.{snake_to_camel-snake_case_str}

-- No code point outside ASCII has a case.
abbrev pub plain : Unicode
plain = record { upper = λ c. c ∷ []; lower = λ c. c ∷ []; uppercase = λ c. false }

wire_name : to_lower_camel plain (codes "add_numbers") ≡ codes "addNumbers"
unfolding to_lower_camel snake_to_camel camel_loop to_uppercase to_lowercase
wire_name = refl

description : description_ident plain (codes "FooBar") ≡ codes "FOO_BAR_DESCRIPTION"
unfolding description_ident screaming_snake_str snake_case_str snake_loop is_uppercase to_lowercase
    all_uppercase to_uppercase text
description = refl

snake_to_camel-snake_case_str_example :
    snake_to_camel plain (snake_case_str plain (codes "FooB2")) ≡ codes "FooB2"
snake_to_camel-snake_case_str_example =
    snake_to_camel-snake_case_str plain (codes "FooB2") (omega arith)
