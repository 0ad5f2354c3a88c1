-- ===== src/Disasm/Print/Blobs.antt =====
-- Slices that src/disasm/loader.rs does not understand, printed by src/disasm/fmt.rs.
use tvm_linker.Prelude.{
  ℕ, suc, ◌==◌, String, Bool, true, false, List, ◌∷◌, ◌≡◌, refl, ap, ◌∙◌, string_key, arith,
}
use tvm_linker.Outcome.{panic, bad_instruction, ok, err}
use tvm_linker.Parser.Cell.{Cell}
use tvm_linker.Disasm.Types.{Slice, Code, new, with_param, push_param}
use tvm_linker.Disasm.Operands.{size}
use tvm_linker.Disasm.Handlers.{Handlers}
use tvm_linker.Disasm.Run.{
  SliceData, History, blob, load_slice, load_reference, finish_load, load_code,
}
use tvm_linker.Disasm.Print.{
  Texts, is_dict, is_jump, print_code, print_insn, print_params, print_param, print_plain,
}

size-some : (c : Cell) (cs : List Cell) → (size (c ∷ cs) == 0) ≡ false
unfolding size
size-some c cs = ground arith

-- A blob with references.
print_code-blob :
    (t : Texts) (s : Slice) (c : Cell) (cs : List Cell) (indent : String) (full : Bool) (width : ℕ)
    → s.references ≡ c ∷ cs
    → print_code t (blob s) indent full width ≡ err panic
unfolding print_code print_insn print_params print_param print_plain blob new with_param push_param
    size is_dict is_jump
print_code-blob t s c cs indent true width h =
    let more = ap (λ rs. size rs == 0) h ∙ size-some c cs in rw more refl
print_code-blob t s c cs indent false width h =
    let more = ap (λ rs. size rs == 0) h ∙ size-some c cs in rw more refl

-- Where the loop over a slice with references ends in an instruction that it refuses, the loader makes
-- a blob of the slice, and printing the code stops the process.
pub load_code-blob_panics :
    (d : SliceData) (t : Texts) (collapse : Bool) (table : Handlers) (fuel : ℕ) (s : Slice)
    (inline : Bool) (h h' : History) (c : Cell) (cs : List Cell) (indent : String) (full : Bool)
    (width : ℕ)
    → s.references ≡ c ∷ cs
    → load_slice d
        (load_code d collapse table fuel)
        (load_reference d collapse table (load_code d collapse table fuel))
        table
        (suc (size s.data_bits))
        s
        h
      ≡ (err bad_instruction, h')
    → (loaded : Code) × ((load_code d collapse table (suc fuel) s inline h ≡ (ok loaded, h'))
        × (print_code t loaded indent full width ≡ err panic))
unfolding load_code finish_load
load_code-blob_panics d t collapse table fuel s inline h h' c cs indent full width refs refused =
    (blob s, (rw (refused, load_code) refl, print_code-blob t s c cs indent full width refs))
