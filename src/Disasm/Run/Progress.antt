-- ===== src/Disasm/Run/Progress.antt =====
-- Each instruction that the loop of `load_slice` of src/disasm/loader.rs reads takes bits.
use tvm_linker.Prelude.{
  ℕ, suc, ◌<◌, String, Bool, true, Option, ◌≡◌, ◌≢◌, refl, ap, subst, ◌∙◌, Option-cases, inl, inr,
  arith,
}
use tvm_linker.Outcome.{ok-injective, ok, and_then-eq-ok}
use tvm_linker.Parser.Cell.{Cell}
use tvm_linker.Disasm.Types.{Slice, Instruction, Code}
use tvm_linker.Disasm.Operands.{Behavior, Load, size}
use tvm_linker.Disasm.Handler.{
  LoadHandler, unknown, insn, custom, operands, opcode_width, is_unknown,
}
use tvm_linker.Disasm.Handlers.{Handlers, get_handler}
use tvm_linker.Disasm.Lookup.{every-passes}
use tvm_linker.Disasm.CodePage.{new_code_page_0}
use tvm_linker.Disasm.Opcodes.Page.{page-every_reads, reads_bits}
use tvm_linker.Disasm.Run.{SliceData, History, Loading, bytes, read, run, load_next}
use tvm_linker.Disasm.Run.Bytecode.{IsReader, Follows, Reads, read-Reads, size-append}

unknown-reads : reads_bits unknown ≡ true
unfolding reads_bits is_unknown
unknown-reads = refl

reads_bits-insn :
    (width opcode : ℕ) (mnemonic : String) (behavior : Behavior) (refs : ℕ)
    → reads_bits (insn width opcode mnemonic behavior refs) ≡ true
    → 0 < opcode_width (insn width opcode mnemonic behavior refs)
unfolding reads_bits is_unknown opcode_width
reads_bits-insn width opcode mnemonic behavior refs h = ground arith

reads_bits-custom :
    (width : ℕ) (test : ℕ → Bool) (others : ℕ → Load)
    → reads_bits (custom width test others) ≡ true
    → 0 < opcode_width (custom width test others)
unfolding reads_bits is_unknown opcode_width
reads_bits-custom width test others h = ground arith

module _ (d : SliceData) (l : IsReader d) (load_code : Slice → Bool → History → Loading Code)
    (load_reference : Option Cell → History → Loading Code) where
  Follows-size : (s rest : Slice) → Follows s rest → size rest.data_bits < suc (size s.data_bits)
  Follows-size s rest (used, p) =
      let whole = ap size p ∙ size-append used rest.data_bits in omega (arith, whole)

  -- A handler that reads an opcode leaves less.
  run-lt :
      (f : LoadHandler) (s rest : Slice) (h h' : History) (i : Instruction)
      → 0 < opcode_width f
      → run d load_code load_reference f s h ≡ (ok (i, rest), h')
      → size rest.data_bits < size s.data_bits
  unfolding run
  run-lt f s rest h h' i wide ran = elim (Option-cases (d.get_next_int (opcode_width f) s)) [
    | inl nothing ↦ cc (rw (nothing, run) at ran)
    | inr ((opc, t), found) ↦
        let behind : Follows t rest =
          subst (λ m. Reads t m.0) (rw (found, run) at ran)
            (read-Reads d l load_code load_reference (operands f opc) t h) in
        let (used, p, long) = l.after_int (opcode_width f) opc s t found in
        let whole = ap size p ∙ size-append used t.data_bits in
        let less = Follows-size t rest behind in omega (arith, whole, long, less, wide)
  ]

  run-unknown :
      (s rest : Slice) (h h' : History) (i : Instruction)
      → run d load_code load_reference unknown s h ≢ (ok (i, rest), h')
  unfolding run operands read opcode_width
  run-unknown s rest h h' i ran = elim (Option-cases (d.get_next_int 0 s)) [
    | inl nothing ↦ cc (rw (nothing, run) at ran)
    | inr ((opc, t), found) ↦ cc (rw (found, run) at ran)
  ]

  -- What is left behind an instruction of a handler that reads an opcode, or is the unknown one.
  load_next-lt :
      (f : LoadHandler) (s rest : Slice) (h h' : History) (i : Instruction)
      → reads_bits f ≡ true
      → load_next d load_code load_reference f s h ≡ (ok (i, rest), h')
      → size rest.data_bits < size s.data_bits
  unfolding load_next
  load_next-lt f s rest h h' i wide loaded =
      let ((j, t), (h1, (ran, last))) =
        and_then-eq-ok (run d load_code load_reference f s h) _ loaded in
      let same : t ≡ rest = ap (λ p. p.1) (ok-injective (ap (λ m. m.0) last)) in
      subst (λ u. size u.data_bits < size s.data_bits) same (left f j t h1 wide ran)
    where
      left :
          (g : LoadHandler) (j : Instruction) (t : Slice) (h1 : History)
          → reads_bits g ≡ true
          → run d load_code load_reference g s h ≡ (ok (j, t), h1)
          → size t.data_bits < size s.data_bits
      left unknown j t h1 w ran = absurd (run-unknown s t h h1 j ran)
      left (insn width opcode mnemonic behavior refs) j t h1 w ran =
          run-lt (insn width opcode mnemonic behavior refs) s t h h1 j
            (reads_bits-insn width opcode mnemonic behavior refs w) ran
      left (custom width test others) j t h1 w ran =
          run-lt (custom width test others) s t h h1 j (reads_bits-custom width test others w) ran

-- In every turn of the loop over a slice that finds its handler in the table of code page 0, the
-- instruction that it reads leaves fewer bits than there were, whatever the loader's recursion into
-- cells and continuations returns.
pub load_next_progress :
    (d : SliceData)
    → IsReader d
    → (load_code : Slice → Bool → History → Loading Code)
      (load_reference : Option Cell → History → Loading Code) (table : Handlers)
    → new_code_page_0 ≡ ok table
    → (f : LoadHandler) (i : Instruction) (s rest : Slice) (h h' : History)
    → get_handler table (bytes d (size s.data_bits) s) ≡ ok f
    → load_next d load_code load_reference f s h ≡ (ok (i, rest), h')
    → size rest.data_bits < size s.data_bits
load_next_progress d l load_code load_reference table built f i s rest h h' found loaded =
    load_next-lt d l load_code load_reference f s rest h h' i
      (every-passes 3 reads_bits table (bytes d (size s.data_bits) s) f
        (page-every_reads table built) unknown-reads found)
      loaded
