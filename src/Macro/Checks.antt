-- ===== src/Macro/Checks.antt =====
-- What `RpcMethod::parse` accepts, and the errors that it reports.
use web_rpc.Prelude.{
  ◌≡◌, refl, Bool, true, false, ◌||◌, none, some, List, [], ◌∷◌, ◌++◌, append_assoc, append-nil,
  inl, inr, Bool-cases, if◌then◌else◌,
}
use web_rpc.Macro.Method.{
  Argument, FnArg, receiver, typed, MethodSyntax, ParseError, generic_parameters, pattern_argument,
  receiver_kind, missing_receiver, start, Progress, on_input, on_inputs, method_output, checked,
  parse_method,
}

-- What is wrong with one input.
abbrev pub input_faults : FnArg → List ParseError
input_faults (typed (some ident) ty) = []
input_faults (typed none ty) = pattern_argument ∷ []
input_faults (receiver true false) = []
input_faults (receiver true true) = receiver_kind ∷ []
input_faults (receiver false is_mut) = receiver_kind ∷ []

abbrev pub inputs_faults : List FnArg → List ParseError
inputs_faults [] = []
inputs_faults (input ∷ inputs) = input_faults input ++ inputs_faults inputs

abbrev pub is_receiver : FnArg → Bool
is_receiver (receiver is_reference is_mut) = true
is_receiver (typed ident ty) = false

abbrev pub any_receiver : List FnArg → Bool
any_receiver [] = false
any_receiver (input ∷ inputs) = is_receiver input || any_receiver inputs

-- The arguments that have names, in their order.
abbrev pub named : List FnArg → List Argument
named [] = []
named (typed (some ident) ty ∷ inputs) = record { ident = ident; ty = ty } ∷ named inputs
named (typed none ty ∷ inputs) = named inputs
named (receiver is_reference is_mut ∷ inputs) = named inputs

abbrev pub starts_with_receiver : List FnArg → Bool
starts_with_receiver [] = false
starts_with_receiver (input ∷ inputs) = is_receiver input

abbrev pub behind_first : List FnArg → List FnArg
behind_first [] = []
behind_first (input ∷ inputs) = inputs

-- What the documentation asks of a method, and this one lacks, in the order of the source: no generic
-- parameters, `&self` as the first parameter, and an identifier for each argument.
abbrev pub faults : MethodSyntax → List ParseError
faults m =
    (if m.has_generics then generic_parameters ∷ [] else [])
    ++ inputs_faults m.inputs
    ++ (if starts_with_receiver m.inputs then [] else missing_receiver ∷ [])

or_false : (b : Bool) → (b || false) ≡ b
or_false true = refl
or_false false = refl

any_receiver-first :
    (inputs : List FnArg)
    → any_receiver (behind_first inputs) ≡ false
    → any_receiver inputs ≡ starts_with_receiver inputs
any_receiver-first [] h = refl
any_receiver-first (input ∷ inputs) h = rw h (or_false (is_receiver input))

or_true : (b : Bool) → (b || true) ≡ true
or_true true = refl
or_true false = refl

on_inputs_lem :
    (inputs : List FnArg) (s : Progress)
    → on_inputs inputs s ≡ record {
      errors = s.errors ++ inputs_faults inputs;
      has_receiver = s.has_receiver || any_receiver inputs;
      args = s.args ++ named inputs;
    }
unfolding on_inputs on_input
on_inputs_lem [] s = simp (append-nil, or_false)
on_inputs_lem (typed (some ident) ty ∷ inputs) s =
    rw (on_inputs_lem inputs (on_input (typed (some ident) ty) s)) (simp append_assoc)
on_inputs_lem (typed none ty ∷ inputs) s =
    rw (on_inputs_lem inputs (on_input (typed none ty) s)) (simp append_assoc)
on_inputs_lem (receiver true true ∷ inputs) s =
    rw (on_inputs_lem inputs (on_input (receiver true true) s)) (simp (append_assoc, or_true))
on_inputs_lem (receiver true false ∷ inputs) s =
    rw (on_inputs_lem inputs (on_input (receiver true false) s)) (simp or_true)
on_inputs_lem (receiver false is_mut ∷ inputs) s =
    rw (on_inputs_lem inputs (on_input (receiver false is_mut) s)) (simp (append_assoc, or_true))

-- For a method that has no receiver behind its first parameter, the parser reports all that the documentation
-- asks and the method lacks, in the order of the source; and a method that lacks nothing is accepted, with
-- its arguments in their order and its output.
pub parse_method-faults :
    (m : MethodSyntax)
    → any_receiver (behind_first m.inputs) ≡ false
    → parse_method m
      ≡ checked (faults m) (record {
        is_async = m.is_async;
        attrs = m.attrs;
        ident = m.ident;
        args = named m.inputs;
        output = method_output m.output;
      })
unfolding parse_method
parse_method-faults m first =
    rw (on_inputs_lem m.inputs (start m.has_generics), any_receiver-first m.inputs first)
      (elim (Bool-cases (starts_with_receiver m.inputs)) [
        | inl given ↦ rw (given, append-nil)
        | inr missing ↦ rw missing
      ])
