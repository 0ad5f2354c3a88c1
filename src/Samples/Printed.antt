-- ===== src/Samples/Printed.antt =====
-- `Code::print` of src/disasm/fmt.rs on a dictionary of code, and on a blob with a reference; the digits
-- of a negative number.
use tvm_linker.Prelude.{
  ◌+◌, arith, if◌then◌else◌, suc, [], ◌∷◌, true, false, none, some, ◌≡◌, refl, string_key,
}
use tvm_linker.Outcome.{panic, bad_instruction, ok, err}
use tvm_linker.Parser.Cell.{cell, no_cells}
use tvm_linker.Disasm.Types.{
  Slice, Code, no_code, more_code, new, with_param, length, cell as cell_param,
}
use tvm_linker.Disasm.Operands.{size, twos_complement}
use tvm_linker.Disasm.Operands.Complement.{number, wide, are_zero, twos_complement_lem}
use tvm_linker.Disasm.Handler.{operands, opcode_width}
use tvm_linker.Disasm.Handlers.{new as blank, unknowns, entry, get_handler}
use tvm_linker.Disasm.Run.{bytes, read, run, load_next, load_slice, load_reference, load_code}
use tvm_linker.Disasm.Print.{Texts, print_code}
use tvm_linker.Disasm.Print.Blobs.{load_code-blob_panics}
use tvm_linker.Samples.Load.{slices, take_int, next_number, value}

abbrev texts : Texts
texts = record {
  hash_text = λ c. "00";
  bit_length = λ c. 0;
  cell_text = λ c. "";
  slice_text = λ s. "0f";
  big_text = λ minus digits. "0";
  code_dict = λ c n indent. none;
}

abbrev switch : Code
switch =
    more_code
      (with_param (cell_param (some (cell "" no_cells)) false)
        (with_param (length 8) (new "DICTPUSHCONST")))
      (more_code (new "DICTUGETJMP") no_code)

abbrev odd : Slice
odd = record {
  data_bits = true ∷ true ∷ false ∷ false ∷ false ∷ false ∷ false ∷ true ∷ [];
  references = cell "" no_cells ∷ [];
}

odd-refused :
    load_slice slices
      (load_code slices true blank 3)
      (load_reference slices true blank (load_code slices true blank 3))
      blank
      (suc (size odd.data_bits))
      odd
      []
    ≡ (err bad_instruction, [])
unfolding load_slice load_next run read bytes operands opcode_width slices next_number take_int
    value size get_handler entry blank unknowns
odd-refused = refl

load_code-blob_panics_example :
    (loaded : Code) × ((load_code slices true blank 4 odd false [] ≡ (ok loaded, []))
      × (print_code texts loaded "" true 12 ≡ err panic))
load_code-blob_panics_example =
    load_code-blob_panics slices texts true blank 3 odd false [] [] (cell "" no_cells) [] "" true 12
      refl odd-refused

twos_complement_lem_example :
    number (twos_complement true (0 ∷ 5 ∷ [])) + number (0 ∷ 5 ∷ [])
    ≡ (if are_zero (0 ∷ 5 ∷ []) then 0 else wide (0 ∷ 5 ∷ []))
twos_complement_lem_example = twos_complement_lem (0 ∷ 5 ∷ []) (omega arith, (omega arith, tt))
