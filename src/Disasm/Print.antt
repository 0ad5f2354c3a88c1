-- ===== src/Disasm/Print.antt =====
-- `Code::print` of src/disasm/fmt.rs, and the marks that src/disasm/codedict.rs puts before it.
pub mod Safety
pub mod Marks
pub mod Blobs
use tvm_linker.Prelude.{
  ℕ, zero, suc, ◌-◌, ◌==◌, ◌||◌, ◌&&◌, leb, if◌then◌else◌, List, [], ◌∷◌, String, Bool, true, false,
  Option, none, some, ℤ, pos, negsuc, str_append, string_key, ◌+◌,
}
use tvm_linker.Outcome.{Error, panic, Result, ok, err, ◌>>=◌}
use tvm_linker.Parser.Cell.{Cell, cell, Cells, no_cells, more_cells}
use tvm_linker.Disasm.Types.{
  Slice, Instruction, instruction, Params, no_params, more_params, Parameter, big_integer,
  control_register, integer, length, length_and_index, nargs, pargs, rargs, slice, stack_register,
  stack_register_pair, stack_register_triple, code, cell as cell_param, code_dict_marker, Code,
  no_code, more_code, push_param,
}
use tvm_linker.Disasm.Operands.{size}
use tvm_linker.Resolver.Format.{decimal, padded, spell}
use tvm_linker.Resolver.{text_length, take_text}

-- What the printing takes from elsewhere: the texts of cells, slices and big integers, and the text
-- that `print_code_dict` of src/disasm/fmt.rs gives, if it succeeds.
pub record Texts : Type 0 where
  pub hash_text : Cell → String
  pub bit_length : Cell → ℕ
  pub cell_text : Cell → String
  pub slice_text : Slice → String
  pub big_text : Bool → List ℕ → String
  pub code_dict : Cell → ℕ → String → Option String

abbrev cat : List String → String
cat [] = ""
cat (s ∷ rest) = str_append s (cat rest)

unfoldable pub nat_text : ℕ → String
nat_text n = spell decimal (padded decimal 0 n)

unfoldable pub int_text : ℤ → String
unfolding nat_text
int_text (pos n) = nat_text n
int_text (negsuc n) = str_append "-" (nat_text (n + 1))

spaces : ℕ → String
spaces zero = ""
spaces (suc n) = str_append " " (spaces n)

unfoldable pub is_dict : String → Bool
is_dict name = string_key.beq name "DICTPUSHCONST" || string_key.beq name "PFXDICTSWITCH"

unfoldable pub is_jump : String → Bool
is_jump name = string_key.beq name "IMPLICIT-JMP"

unfoldable pub is_block : Parameter → Bool
is_block (code c from) = true
is_block (cell_param c collapsed) = true
is_block _ = false

unfoldable pub is_last : Params → Bool
is_last no_params = true
is_last (more_params p params') = false

-- `CodeDictMarker`, if it is the third parameter.
unfoldable pub is_marked : Params → Bool
is_marked (more_params code_dict_marker params') = true
is_marked _ = false

module _ (t : Texts) where
  unfoldable mutual
    pub print_cell : Cell → String → Bool → String
    print_cell (cell hex references) indent dot_cell = cat (
        (if dot_cell then str_append indent ".cell " else "")
        ∷ "{ ;; #"
        ∷ t.hash_text (cell hex references)
        ∷ "\n"
        ∷ (if leb 1 (t.bit_length (cell hex references))
            then cat
                (str_append "  " indent ∷ ".blob x" ∷ t.cell_text (cell hex references) ∷ "\n" ∷ [])
            else "")
        ∷ print_cells references (str_append "  " indent)
        ∷ indent
        ∷ "}"
        ∷ (if dot_cell then "\n" else "")
        ∷ [])

    pub print_cells : Cells → String → String
    print_cells no_cells indent = ""
    print_cells (more_cells c cs) indent =
        str_append (print_cell c indent true) (print_cells cs indent)

  unfoldable pub bytecode_text : Option Slice → ℕ → String
  unfolding nat_text
  bytecode_text none refs = ""
  bytecode_text (some s) refs =
      cat
        (t.slice_text s ∷ (if leb 1 refs then cat (" {" ∷ nat_text refs ∷ "r}" ∷ []) else "") ∷ [])

  -- `print_bytecode`: cut to the width, or filled up with spaces.
  unfoldable pub print_bytecode : Option Slice → ℕ → ℕ → String
  unfolding bytecode_text spaces
  print_bytecode bytecode refs width =
      let shown = take_text width (bytecode_text bytecode refs) in
      if leb 1 width then cat (shown ∷ spaces (width - text_length shown) ∷ " │ " ∷ []) else ""

  unfoldable pub dict_text : ℕ → Cell → Bool → String → String
  dict_text key_length c marked indent =
      if marked
      then elim (t.code_dict c key_length indent) [
        | none ↦ print_cell c indent true
        | some text ↦ text
      ]
      else print_cell c indent true

  -- `print_dictpushconst`
  unfoldable pub print_dict : String → Params → String → Result String
  unfolding dict_text is_marked nat_text
  print_dict name (more_params (length l) (more_params (cell_param c false) params')) indent =
      elim c [
        | none ↦ ok (cat (name ∷ " " ∷ nat_text l ∷ " ;; missing dict ref\n" ∷ []))
        | some inner ↦ ok (
            cat
              (name ∷ " " ∷ nat_text l ∷ "\n" ∷ dict_text l inner (is_marked params') indent ∷ []))
      ]
  print_dict name _ indent = err panic

  unfoldable pub print_cell_param : Option Cell → Bool → String → ℕ → String
  unfolding print_cell print_bytecode
  print_cell_param c true indent width = "<collapsed>"
  print_cell_param (some inner) false indent width = print_cell inner indent false
  print_cell_param none false indent width = cat (
      "{\n"
      ∷ print_bytecode none 0 width
      ∷ indent
      ∷ "  ;; missing cell\n"
      ∷ print_bytecode none 0 width
      ∷ indent
      ∷ "}"
      ∷ [])

  -- The parameters that are no code; of a cell only where `full` is set.
  unfoldable pub print_plain : Parameter → String → Bool → ℕ → Result String
  unfolding print_cell_param int_text nat_text
  print_plain (big_integer negative digits) indent full width = ok (t.big_text negative digits)
  print_plain (control_register c) indent full width = ok (str_append "c" (nat_text c))
  print_plain (integer i) indent full width = ok (int_text i)
  print_plain (length l) indent full width = ok (nat_text l)
  print_plain (length_and_index l i) indent full width =
      ok (cat (nat_text l ∷ ", " ∷ nat_text i ∷ []))
  print_plain (nargs n) indent full width = ok (int_text n)
  print_plain (pargs p) indent full width = ok (nat_text p)
  print_plain (rargs r) indent full width = ok (nat_text r)
  print_plain (slice s) indent full width =
      if size s.references == 0 then ok (str_append "x" (t.slice_text s)) else err panic
  print_plain (stack_register r) indent full width = ok (str_append "s" (int_text r))
  print_plain (stack_register_pair a b) indent full width =
      ok (cat ("s" ∷ int_text a ∷ ", s" ∷ int_text b ∷ []))
  print_plain (stack_register_triple a b c) indent full width =
      ok (cat ("s" ∷ int_text a ∷ ", s" ∷ int_text b ∷ ", s" ∷ int_text c ∷ []))
  print_plain (code c from) indent full width = ok ""
  print_plain (cell_param c collapsed) indent full width =
      ok (if full then print_cell_param c collapsed indent width else "")
  print_plain code_dict_marker indent full width = err panic

  unfoldable pub block : Option Cell → String → String → ℕ → String
  unfolding print_bytecode
  block from text indent width = cat (
      elim from [ none ↦ "{\n" | some c ↦ cat ("{ ;; #" ∷ t.hash_text c ∷ "\n" ∷ []) ]
      ∷ text
      ∷ print_bytecode none 0 width
      ∷ indent
      ∷ "}"
      ∷ [])

  unfoldable pub jump_text : Option Cell → String → String → Result String
  jump_text none text indent = err panic
  jump_text (some c) text indent =
      ok (cat (".cell { ;; #" ∷ t.hash_text c ∷ "\n" ∷ text ∷ indent ∷ "}\n" ∷ []))

  unfoldable pub separator : Parameter → Params → Bool → String
  unfolding is_block is_last
  separator p params' full = if is_last params' || (full && is_block p) then "" else ", "

  unfoldable mutual
    pub print_code : Code → String → Bool → ℕ → Result String
    print_code no_code indent full width = ok ""
    print_code (more_code i rest) indent full width = do
      text ← print_insn i indent full width
      following ← print_code rest indent full width
      ok (str_append text following)

    pub print_insn : Instruction → String → Bool → ℕ → Result String
    print_insn (instruction name params' quiet comment bytecode refs) indent full width =
        let dict = print_dict name params' indent in
        let jump = print_jump params' indent width in
        let plain = print_params params' indent full width in
        let start = str_append (print_bytecode bytecode refs width) indent in
        if full && is_dict name
        then dict >>= (λ text. ok (str_append start text))
        else if full && is_jump name
        then jump >>= (λ text. ok (str_append start text))
        else plain >>= (λ text. ok (
            cat (
              start
              ∷ name
              ∷ (if quiet then "Q" else "")
              ∷ (if is_last params' then "" else " ")
              ∷ text
              ∷ elim comment [ none ↦ "" | some c ↦ str_append " ;; " c ]
              ∷ "\n"
              ∷ [])))

    pub print_jump : Params → String → ℕ → Result String
    print_jump (more_params (code c from) params') indent width =
        print_code c (str_append "  " indent) true width >>= (λ text. jump_text from text indent)
    print_jump _ indent width = err panic

    pub print_params : Params → String → Bool → ℕ → Result String
    print_params no_params indent full width = ok ""
    print_params (more_params p params') indent full width = do
      text ← print_param p indent full width
      following ← print_params params' indent full width
      ok (cat (text ∷ separator p params' full ∷ following ∷ []))

    pub print_param : Parameter → String → Bool → ℕ → Result String
    print_param (code c from) indent full width =
        let inner = print_code c (str_append "  " indent) full width in
        if full then inner >>= (λ text. ok (block from text indent width)) else ok ""
    print_param p indent full width = print_plain p indent full width

-- `process_dictpushconst_dictugetjmp` on the chunks of two instructions.
unfoldable pub name_of : Instruction → String
name_of (instruction name _ quiet comment bytecode refs) = name

unfoldable pub mark : Instruction → Instruction
mark (instruction name params' quiet comment bytecode refs) =
    instruction name (push_param code_dict_marker params') quiet comment bytecode refs

unfoldable pub mark_if : Bool → Instruction → Instruction
unfolding mark
mark_if marked i = if marked then mark i else i

unfoldable pub mark_pairs : Code → Code
unfolding mark_if name_of is_dict
mark_pairs no_code = no_code
mark_pairs (more_code i no_code) = more_code i no_code
mark_pairs (more_code i (more_code j rest)) =
    more_code (mark_if (string_key.beq (name_of j) "DICTUGETJMP" && is_dict (name_of i)) i)
      (more_code j (mark_pairs rest))

-- `traverse_code_tree` with it: the inner codes stay the inner codes, so their order is free.
unfoldable mutual
  pub elaborate_code : Code → Code
  elaborate_code no_code = no_code
  elaborate_code (more_code i rest) = more_code (elaborate_insn i) (elaborate_code rest)

  pub elaborate_insn : Instruction → Instruction
  elaborate_insn (instruction name params' quiet comment bytecode refs) =
      instruction name (elaborate_params params') quiet comment bytecode refs

  pub elaborate_params : Params → Params
  elaborate_params no_params = no_params
  elaborate_params (more_params p params') =
      more_params (elaborate_param p) (elaborate_params params')

  pub elaborate_param : Parameter → Parameter
  elaborate_param (code c from) = code (mark_pairs (elaborate_code c)) from
  elaborate_param p = p

-- `elaborate_dictpushconst_dictugetjmp`
unfoldable pub elaborate : Code → Code
unfolding elaborate_code mark_pairs
elaborate c = mark_pairs (elaborate_code c)
