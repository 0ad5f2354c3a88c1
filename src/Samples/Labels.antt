-- ===== src/Samples/Labels.antt =====
-- `replace_labels_in_body` of src/parser.rs on a body that names a function, and numbers as
-- src/resolver.rs prints them.
use tvm_linker.Prelude.{
  ℕ, ◌∷◌, [], none, some, String, true, false, lookup, adjust, string_key, ◌≡◌, refl, inl,
  starts_with, pos, ◌^◌, ◌≤◌, codes, parse_unsigned,
}
use tvm_linker.Outcome.{ok, IsRefused}
use tvm_linker.Parser.State.{Line, Lines, ParseEngine, blank_engine, func, data_of}
use tvm_linker.Parser.Externals.{NameCapture, Externals}
use tvm_linker.Parser.Labels.{
  name_of, call, call_object, insert_called_func, get_internal, get_globl, get_address, get_base,
  or_else, settle, try_ids, try_addresses, replace_labels, replace_labels_in_line,
  replace_labels_in_body,
}
use tvm_linker.Parser.Labels.Frame.{func_of, function_of}
use tvm_linker.Parser.Labels.Records.{Records, IsGlobalFunction, Mentions, labelled, HasLabel}
use tvm_linker.Parser.Labels.Calls.{replace_labels_in_body-Records}
use tvm_linker.Parser.Labels.Unknown.{IsUnknown, replace_labels_in_body-unknown}
use tvm_linker.Resolver.Format.{u32, upper_hex, try_from, digits, zeros, padded, spell, format}
use tvm_linker.Resolver.Reading.{read}
use tvm_linker.Resolver.Numbers.{number_text-read}
use tvm_linker.Resolver.{
  text_length, get_range, split_comment, has_dollar, offset_of, width_text, radix_of, number_text,
  found_text, resolve_found, resolve_id, resolve_capture, resolve_captures, finish_text, renamed,
  resolve_name,
}
use tvm_linker.Samples.Inputs.{captures, line, procedure, routine}

-- A match of `$name+40:012X$`.
abbrev shown : NameCapture
shown = record {
  id = some (1, "name");
  offset = some "+40";
  len = some "012";
  fmt = some "X";
  stop = 15;
}

shown-fits : try_from u32 (pos 40) ≡ some 40
unfolding try_from
shown-fits = refl

shown-wide : parse_unsigned (2 ^ 64) (codes (width_text shown.len)) ≡ some 12
unfolding width_text
shown-wide = refl

number_text-read_example :
    (text : String) × ((number_text u32 shown (pos 40) 3 ≡ ok text)
      × ((read upper_hex u32 text ≡ some 43) × (12 ≤ text_length text)))
number_text-read_example =
    number_text-read u32 shown (pos 40) 3 40 12 upper_hex shown-fits shown-wide refl

abbrev label : String → ℕ → NameCapture
label name stop = record { id = some (9, name); offset = none; len = none; fmt = none; stop = stop }

abbrev pub labels : Externals
labels = record captures {
  names = λ l.
      elim (lookup l
        (("PUSHINT $fee$\n", label "fee" 13) ∷ ("PUSHINT $gas$\n", label "gas" 13) ∷ [])) [
          | none ↦ []
          | some c ↦ c ∷ []
        ];
}

abbrev calling : Lines
calling = line "PUSHINT $fee$\n" ∷ line "NOP\n" ∷ []

abbrev called : Lines
called = line "PUSHINT 5\n" ∷ line "NOP\n" ∷ []

unfoldable unresolved : ParseEngine
unfolding blank_engine
unresolved = record blank_engine {
  globl_name_to_id = ("fee", 5) ∷ ("main", 7) ∷ [];
  globl_name_to_object =
      ("fee", routine "fee" false 5 []) ∷ ("main", routine "main" true 7 []) ∷ [];
}

unfoldable resolved : ParseEngine
unfolding unresolved
resolved = record unresolved {
  globl_name_to_object =
      ("fee", routine "fee" false 5 []) ∷ ("main", routine "main" true 7 (5 ∷ [])) ∷ [];
}

calling-called :
    replace_labels_in_body labels 1 (name_of "main") calling unresolved ≡ ok (called, resolved)
unfolding replace_labels_in_body replace_labels_in_line replace_labels try_addresses try_ids or_else
    settle get_internal get_globl get_address get_base insert_called_func call_object call
    resolve_name renamed finish_text resolve_captures resolve_capture resolve_id resolve_found
    found_text number_text radix_of width_text offset_of has_dollar split_comment get_range format
    spell padded zeros digits try_from lookup adjust blank_engine unresolved resolved starts_with
calling-called = refl

main-fee : Mentions labels (line "PUSHINT $fee$\n") "fee"
unfolding has_dollar split_comment starts_with lookup
main-fee = labelled (record {
  no_inline = refl;
  dollar = refl;
  capture = label "fee" 13;
  begin = 9;
  member = inl refl;
  named = refl;
})

fee-IsGlobalFunction : IsGlobalFunction unresolved "fee" 5
unfolding unresolved blank_engine lookup function_of func_of func
fee-IsGlobalFunction = record {
  no_internal = refl;
  globl = refl;
  defined = (procedure 5 [] [], refl);
  no_global_base = refl;
  no_persistent_base = refl;
}

main-function : function_of (name_of "main") unresolved ≡ some (procedure 7 [] [])
unfolding unresolved blank_engine lookup function_of func_of func
main-function = refl

no-compute : (l : Line) → l.text ≡ "PUSHINT $fee$\n" → starts_with l.text ".compute" ≡ false
unfolding starts_with
no-compute l h = rw h refl

replace_labels_in_body-Records_example : Records (name_of "main") resolved 5
replace_labels_in_body-Records_example =
    replace_labels_in_body-Records labels 1 (name_of "main") calling called unresolved resolved
      (procedure 7 [] []) (line "PUSHINT $fee$\n") "fee" 5 main-function (inl refl)
      (no-compute (line "PUSHINT $fee$\n") refl) main-fee fee-IsGlobalFunction calling-called

gas-IsUnknown : IsUnknown resolved "gas"
unfolding resolved unresolved blank_engine lookup get_address data_of
gas-IsUnknown = record {
  no_internal = refl;
  no_globl = refl;
  no_address = refl;
  no_global_base = refl;
  no_persistent_base = refl;
}

gas-HasLabel : HasLabel labels (line "PUSHINT $gas$\n") "gas"
unfolding has_dollar split_comment starts_with lookup
gas-HasLabel = record {
  no_inline = refl;
  dollar = refl;
  capture = label "gas" 13;
  begin = 9;
  member = inl refl;
  named = refl;
}

no-compute-gas : starts_with "PUSHINT $gas$\n" ".compute" ≡ false
unfolding starts_with
no-compute-gas = refl

replace_labels_in_body-unknown_example : IsRefused (
    replace_labels_in_body labels 1
      (name_of "main")
      (line "PUSHINT $fee$\n" ∷ line "NOP\n" ∷ line "PUSHINT $gas$\n" ∷ line "DROP\n" ∷ [])
      unresolved)
replace_labels_in_body-unknown_example =
    replace_labels_in_body-unknown labels 1 (name_of "main") calling called (line "PUSHINT $gas$\n")
      (line "DROP\n" ∷ []) unresolved resolved "gas" calling-called no-compute-gas gas-HasLabel
      gas-IsUnknown
