-- ===== src/Samples/Load.antt =====
-- `load_slice` of src/disasm/loader.rs with the table of code page 0, on three instructions.
use tvm_linker.Prelude.{
  ℕ, zero, suc, ◌+◌, ◌*◌, ◌≡◌, ◌<◌, refl, ap, List, [], ◌∷◌, ◌++◌, Bool, true, false, Option, none,
  some, some-eq, inl, inr, subst, Option-cases, pos,
}
use tvm_linker.Outcome.{Result, ok, err}
use tvm_linker.Parser.Cell.{Cell}
use tvm_linker.Disasm.Types.{
  Slice, Code, no_code, more_code, new, with_param, set_bytecode, push_param, stack_register,
}
use tvm_linker.Disasm.Operands.{size, check, behave, signaling}
use tvm_linker.Disasm.Handler.{LoadHandler, insn, operands, opcode_width, is_unknown}
use tvm_linker.Disasm.Handlers.{
  Handlers as Table, new as blank, entry, subset_at, get_handler, is_free, replace, put_subset,
  add_subset, count, push_subset, set, set_range, unknowns,
}
use tvm_linker.Disasm.CodePage.{new_code_page_0}
use tvm_linker.Disasm.Pages.PartStack.{add_code_page_0_part_stack}
use tvm_linker.Disasm.Pages.Tuple.{add_code_page_0_tuple}
use tvm_linker.Disasm.Pages.PartConstant.{add_code_page_0_part_constant}
use tvm_linker.Disasm.Pages.Arithmetic.{add_code_page_0_arithmetic}
use tvm_linker.Disasm.Pages.Comparsion.{add_code_page_0_comparsion}
use tvm_linker.Disasm.Pages.Cell.{add_code_page_0_cell}
use tvm_linker.Disasm.Pages.ControlFlow.{add_code_page_0_control_flow}
use tvm_linker.Disasm.Pages.Exceptions.{add_code_page_0_exceptions}
use tvm_linker.Disasm.Pages.Dictionaries.{add_code_page_0_dictionaries}
use tvm_linker.Disasm.Pages.GasRandConfig.{add_code_page_0_gas_rand_config}
use tvm_linker.Disasm.Pages.Blockchain.{add_code_page_0_blockchain}
use tvm_linker.Disasm.Pages.Crypto.{add_code_page_0_crypto}
use tvm_linker.Disasm.Pages.Debug.{add_code_page_0_debug}
use tvm_linker.Disasm.Run.{
  SliceData, History, Loading, bytes, read, run, taken, load_next, load_slice,
}
use tvm_linker.Disasm.Run.Bytecode.{first, Follows, IsReader, bytecode, load_slice-bytecode}
use tvm_linker.Disasm.Run.Progress.{load_next_progress}

unfoldable pub value : Bool → ℕ
value true = 1
value false = 0

unfoldable pub take_int : ℕ → ℕ → List Bool → Option (ℕ × List Bool)
unfolding value
take_int zero acc bits = some (acc, bits)
take_int (suc n) acc [] = none
take_int (suc n) acc (b ∷ bits) = take_int n (acc * 2 + value b) bits

unfoldable pub after : ℕ → List Bool → List Bool
after zero bits = bits
after (suc n) [] = []
after (suc n) (b ∷ bits) = after n bits

unfoldable pub take_refs : ℕ → List Cell → List Cell
take_refs zero cs = []
take_refs (suc n) [] = []
take_refs (suc n) (c ∷ cs) = c ∷ take_refs n cs

unfoldable pub next_number : ℕ → Slice → Option (ℕ × Slice)
unfolding take_int
next_number n s = elim (take_int n 0 s.data_bits) [
  | none ↦ none
  | some (v, bits) ↦ some (v, record s { data_bits = bits })
]

unfoldable pub first_of : List Cell → Slice → Option (Cell × Slice)
first_of [] s = none
first_of (c ∷ cs) s = some (c, record s { references = cs })

-- Slices as lists. No slice is cut out or trimmed here, and no cell is opened.
unfoldable pub slices : SliceData
unfolding next_number take_refs after first_of
slices = record {
  get_next_int = next_number;
  get_next_byte = next_number 8;
  get_next_slice = λ n s. none;
  trim_right = λ s. s;
  shrink =
      λ n r s. record { data_bits = first n s.data_bits; references = take_refs r s.references };
  go_on = λ n r s. record s { data_bits = after n s.data_bits };
  checked_drain_reference = λ s. first_of s.references s;
  load_cell_ref = λ c. none;
  repr_hash = λ c. 0;
}

take_int-split :
    (n acc v : ℕ) (bits rest : List Bool)
    → take_int n acc bits ≡ some (v, rest)
    → (used : List Bool) × (bits ≡ used ++ rest) × (size used ≡ n)
unfolding take_int size
take_int-split zero acc v bits rest h = ([], ap (λ p. p.1) (some-eq h), refl)
take_int-split (suc n) acc v [] rest h = cc h
take_int-split (suc n) acc v (b ∷ bits) rest h =
    let (used, p, long) = take_int-split n (acc * 2 + value b) v bits rest h in
    (b ∷ used, ap (λ t. b ∷ t) p, ap suc long)

next_number-split :
    (n v : ℕ) (s rest : Slice)
    → next_number n s ≡ some (v, rest)
    → (used : List Bool) × (s.data_bits ≡ used ++ rest.data_bits) × (size used ≡ n)
unfolding next_number
next_number-split n v s rest h = elim (Option-cases (take_int n 0 s.data_bits)) [
  | inl short ↦ cc (rw (short, next_number) at h)
  | inr ((w, bits), found) ↦
      let same = some-eq (rw (found, next_number) at h) in
      subst (λ p. (used : List Bool) × (s.data_bits ≡ used ++ p.1.data_bits) × (size used ≡ n)) same
        (take_int-split n 0 w s.data_bits bits found)
]

after-split : (n : ℕ) (bits : List Bool) → (used : List Bool) × (bits ≡ used ++ after n bits)
unfolding after
after-split zero bits = ([], refl)
after-split (suc n) [] = ([], refl)
after-split (suc n) (b ∷ bits) = let (used, p) = after-split n bits in (b ∷ used, ap (λ t. b ∷ t) p)

first_of-Follows :
    (cs : List Cell) (s rest : Slice) (c : Cell) → first_of cs s ≡ some (c, rest) → Follows s rest
unfolding first_of
first_of-Follows [] s rest c h = cc h
first_of-Follows (k ∷ cs) s rest c h = ([], ap (λ p. p.1.data_bits) (some-eq h))

slices-IsReader : IsReader slices
unfolding slices
slices-IsReader = record {
  after_int = λ n v s rest h. next_number-split n v s rest h;
  after_byte = λ v s rest h. let (used, p, long) = next_number-split 8 v s rest h in (used, p);
  after_slice = λ n s t rest h. cc h;
  after_skip = λ n r s. after-split n s.data_bits;
  after_drain = λ s rest c h. first_of-Follows s.references s rest c h;
  kept = λ n r s. refl;
}

unfoldable no_more : Slice → Bool → History → Loading Code
no_more s inline h = (ok no_code, h)

unfoldable no_cells : Option Cell → History → Loading Code
no_cells c h = (ok no_code, h)

abbrev table_or : Result Table → Table
table_or (err why) = blank
table_or (ok t) = t

unfoldable table : Table
table = table_or new_code_page_0

table-built : new_code_page_0 ≡ ok table
unfolding table new_code_page_0 is_free entry is_unknown replace put_subset subset_at add_subset
    count blank push_subset set set_range unknowns add_code_page_0_part_stack add_code_page_0_tuple
    add_code_page_0_part_constant add_code_page_0_arithmetic add_code_page_0_comparsion
    add_code_page_0_cell add_code_page_0_control_flow add_code_page_0_exceptions
    add_code_page_0_dictionaries add_code_page_0_gas_rand_config add_code_page_0_blockchain
    add_code_page_0_crypto add_code_page_0_debug
table-built = refl

-- NOP, and PUSH s2.
abbrev bits : List Bool
bits =
    false ∷ false ∷ false ∷ false ∷ false ∷ false ∷ false ∷ false ∷ false ∷ false ∷ true ∷ false
    ∷ false ∷ false ∷ true ∷ false ∷ []

abbrev program : Slice
program = record { data_bits = bits; references = [] }

abbrev end : Slice
end = record { data_bits = []; references = [] }

abbrev loaded : Code
loaded =
    more_code (set_bytecode (record { data_bits = first 8 bits; references = [] }) (new "NOP")) (
      more_code
        (set_bytecode (record { data_bits = after 8 bits; references = [] })
          (with_param (stack_register (pos 2)) (new "PUSH")))
        no_code)

program-loaded : load_slice slices no_more no_cells table 17 program [] ≡ (ok (loaded, end), [])
unfolding load_slice load_next run taken read bytes slices next_number take_int take_refs after
    value get_handler operands opcode_width check behave set_bytecode with_param push_param new size
    table new_code_page_0 is_free entry is_unknown replace put_subset subset_at add_subset count
    blank push_subset set set_range unknowns add_code_page_0_part_stack add_code_page_0_tuple
    add_code_page_0_part_constant add_code_page_0_arithmetic add_code_page_0_comparsion
    add_code_page_0_cell add_code_page_0_control_flow add_code_page_0_exceptions
    add_code_page_0_dictionaries add_code_page_0_gas_rand_config add_code_page_0_blockchain
    add_code_page_0_crypto add_code_page_0_debug
program-loaded = refl

load_slice-bytecode_example : (bytecode loaded ≡ program.data_bits) × (end.data_bits ≡ [])
load_slice-bytecode_example =
    load_slice-bytecode slices slices-IsReader no_more no_cells table 17 program end [] [] loaded
      program-loaded

abbrev nop_handler : LoadHandler
nop_handler = insn 8 0 "NOP" signaling 0

nop-found : get_handler table (bytes slices (size bits) program) ≡ ok nop_handler
unfolding load_next run taken read bytes slices next_number take_int take_refs after value
    get_handler operands opcode_width check behave set_bytecode with_param push_param new size table
    new_code_page_0 is_free entry is_unknown replace put_subset subset_at add_subset count blank
    push_subset set set_range unknowns add_code_page_0_part_stack add_code_page_0_tuple
    add_code_page_0_part_constant add_code_page_0_arithmetic add_code_page_0_comparsion
    add_code_page_0_cell add_code_page_0_control_flow add_code_page_0_exceptions
    add_code_page_0_dictionaries add_code_page_0_gas_rand_config add_code_page_0_blockchain
    add_code_page_0_crypto add_code_page_0_debug
nop-found = refl

nop-loaded : load_next slices no_more no_cells nop_handler program [] ≡ (
  ok (
    set_bytecode (record { data_bits = first 8 bits; references = [] }) (new "NOP"),
    record { data_bits = after 8 bits; references = [] },
  ),
  [],
)
unfolding load_next run taken read bytes slices next_number take_int take_refs after value
    get_handler operands opcode_width check behave set_bytecode with_param push_param new size table
    new_code_page_0 is_free entry is_unknown replace put_subset subset_at add_subset count blank
    push_subset set set_range unknowns add_code_page_0_part_stack add_code_page_0_tuple
    add_code_page_0_part_constant add_code_page_0_arithmetic add_code_page_0_comparsion
    add_code_page_0_cell add_code_page_0_control_flow add_code_page_0_exceptions
    add_code_page_0_dictionaries add_code_page_0_gas_rand_config add_code_page_0_blockchain
    add_code_page_0_crypto add_code_page_0_debug
nop-loaded = refl

load_next_progress_example : size (after 8 bits) < size bits
load_next_progress_example =
    load_next_progress slices slices-IsReader no_more no_cells table table-built nop_handler
      (set_bytecode (record { data_bits = first 8 bits; references = [] }) (new "NOP")) program
      (record { data_bits = after 8 bits; references = [] }) [] [] nop-found nop-loaded
