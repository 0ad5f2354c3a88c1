-- ===== src/Disasm/Run.antt =====
-- `Loader::load`, `load_slice` and `load_cell` of src/disasm/loader.rs.
pub mod Bytecode
pub mod Progress
use tvm_linker.Prelude.{
  ℕ, zero, suc, ◌-◌, ◌==◌, List, [], ◌∷◌, Bool, true, false, if◌then◌else◌, Option, none, some,
  Dict, lookup, insert, nat_key,
}
use tvm_linker.Outcome.{
  Error, panic, out_of_fuel, no_data, bad_instruction, too_many_references, Result, ok, err,
  and_then,
}
use tvm_linker.Parser.Cell.{Cell}
use tvm_linker.Disasm.Types.{
  Slice, Instruction, Code, no_code, more_code, slice, code, cell, new, with_param, set_bytecode,
  single, append,
}
use tvm_linker.Disasm.Operands.{
  Load, done, refuse, abort, next_int, next_byte, next_slice, trim, part, skip, drain, load_cell,
  load, size,
}
use tvm_linker.Disasm.Handler.{LoadHandler, operands, opcode_width}
use tvm_linker.Disasm.Handlers.{Handlers, get_handler}

-- What the loader takes from the crate of cells. `shrink n r` is `shrink_data(..n)` and
-- `shrink_references(..r)`, and `go_on n r` is `shrink_data(n..)` and `shrink_references(r..)`.
pub record SliceData : Type 0 where
  pub get_next_int : ℕ → Slice → Option (ℕ × Slice)
  pub get_next_byte : Slice → Option (ℕ × Slice)
  pub get_next_slice : ℕ → Slice → Option (Slice × Slice)
  pub trim_right : Slice → Slice
  pub shrink : ℕ → ℕ → Slice → Slice
  pub go_on : ℕ → ℕ → Slice → Slice
  pub checked_drain_reference : Slice → Option (Cell × Slice)
  pub load_cell_ref : Cell → Option Slice
  pub repr_hash : Cell → ℕ

-- `history`, by the hashes of the cells; it outlives an error.
abbrev pub History : Type 0
History = Dict ℕ Code

abbrev pub Loading : Type 0 → Type 0
Loading A = Result A × History

-- The code of a slice that is not understood: its bits, and its references as cells.
unfoldable pub cells_of : List Cell → Code
cells_of [] = no_code
cells_of (c ∷ cs) = more_code (with_param (cell (some c) false) (new ".cell")) (cells_of cs)

unfoldable pub blob : Slice → Code
unfolding cells_of
blob s = more_code (with_param (slice s) (new ".blob")) (cells_of s.references)

module _ (d : SliceData) where
  -- The bytes that `get_handler` may look at.
  unfoldable pub bytes : ℕ → Slice → List ℕ
  bytes zero s = []
  bytes (suc n) s = elim (d.get_next_byte s) [ none ↦ [] | some (b, rest) ↦ b ∷ bytes n rest ]

  -- A handler, with the loader's own functions as far as it calls them.
  module _ (load_code : Slice → Bool → History → Loading Code)
      (load_reference : Option Cell → History → Loading Code) where
    unfoldable pub read : Load → Slice → History → Loading (Instruction × Slice)
    read (done i) s h = (ok (i, s), h)
    read refuse s h = (err bad_instruction, h)
    read abort s h = (err panic, h)
    read (next_int n next) s h = elim (d.get_next_int n s) [
      | none ↦ (err no_data, h)
      | some (v, rest) ↦ read (next v) rest h
    ]
    read (next_byte next) s h = elim (d.get_next_byte s) [
      | none ↦ (err no_data, h)
      | some (v, rest) ↦ read (next v) rest h
    ]
    read (next_slice n next) s h = elim (d.get_next_slice n s) [
      | none ↦ (err no_data, h)
      | some (t, rest) ↦ read (next t) rest h
    ]
    read (trim t next) s h = read (next (d.trim_right t)) s h
    read (part bits refs next) s h = read (next (d.shrink bits refs s)) s h
    read (skip bits refs next) s h = read next (d.go_on bits refs s) h
    read (drain next) s h = elim (d.checked_drain_reference s) [
      | none ↦ read (next none) s h
      | some (c, rest) ↦ read (next (some c)) rest h
    ]
    read (load_cell c next) s h =
        and_then (load_reference c h) (λ loaded h'. read (next loaded) s h')
    read (load t inline next) s h =
        and_then (load_code t inline h) (λ loaded h'. read (next loaded) s h')

    unfoldable pub run : LoadHandler → Slice → History → Loading (Instruction × Slice)
    unfolding read
    run f s h = elim (d.get_next_int (opcode_width f) s) [
      | none ↦ (err no_data, h)
      | some (opc, rest) ↦ read (operands f opc) rest h
    ]

    -- The bits that an instruction took from the slice.
    unfoldable pub taken : Slice → Slice → Slice
    taken s rest =
        d.shrink (size s.data_bits - size rest.data_bits) (size s.references - size rest.references)
          s

    unfoldable pub load_next : LoadHandler → Slice → History → Loading (Instruction × Slice)
    unfolding run taken
    load_next f s h =
        and_then (run f s h) (λ (i, rest) h'. (ok (set_bytecode (taken s rest) i, rest), h'))

    -- The loop, on fuel.
    unfoldable pub load_slice : Handlers → ℕ → Slice → History → Loading (Code × Slice)
    unfolding load_next
    load_slice table zero s h = (err out_of_fuel, h)
    load_slice table (suc fuel) s h = elim (size s.data_bits == 0) [
      | true ↦ (ok (no_code, s), h)
      | false ↦ elim (get_handler table (bytes (size s.data_bits) s)) [
        | err why ↦ (err why, h)
        | ok f ↦ and_then (load_next f s h) (λ (i, rest) h'.
            and_then (load_slice table fuel rest h')
              (λ (following, last) h''. (ok (more_code i following, last), h'')))
      ]
    ]

  -- What `load` does with the references that are left behind the bits.
  module _ (load_reference : Option Cell → History → Loading Code) where
    unfoldable pub continued : Bool → Code → Option Cell → Code → Code
    continued true before next following = append before following
    continued false before next following =
        append before (single (with_param (code following next) (new "IMPLICIT-JMP")))

    -- `checked_drain_reference().ok()`
    unfoldable pub drained : Slice → Option Cell
    drained s = elim (d.checked_drain_reference s) [ none ↦ none | some (c, rest) ↦ some c ]

    unfoldable pub finish_load : Slice → Bool → Loading (Code × Slice) → Loading Code
    unfolding continued drained blob
    finish_load orig inline (err panic, h) = (err panic, h)
    finish_load orig inline (err out_of_fuel, h) = (err out_of_fuel, h)
    finish_load orig inline (err _, h) = (ok (blob orig), h)
    finish_load orig inline (ok (before, s), h) = elim s.references [
      | [] ↦ (ok before, h)
      | c ∷ cs ↦ elim cs [
        | [] ↦
            and_then (load_reference (drained s) h)
              (λ following h'. (ok (continued inline before (drained s) following), h'))
        | c' ∷ cs' ↦ (err too_many_references, h)
      ]
    ]

  module _ (collapse : Bool) (table : Handlers) where
    -- `load_cell_impl` puts the code that it has found for a cell into the history.
    unfoldable pub remember : Cell → Loading Code → Loading Code
    remember c (ok loaded, h) = (ok loaded, insert (d.repr_hash c) loaded h)
    remember c (err panic, h) = (err panic, h)
    remember c (err out_of_fuel, h) = (err out_of_fuel, h)
    remember c (err _, h) =
        let whole = single (with_param (cell (some c) false) (new ".cell")) in
        (ok whole, insert (d.repr_hash c) whole h)

    unfoldable pub load_cell_impl :
        (Slice → Bool → History → Loading Code) → Cell → History → Loading Code
    unfolding remember
    load_cell_impl load_code c h = elim (lookup (d.repr_hash c) h) [
      | some loaded ↦
          (ok (if collapse then single (with_param (cell (some c) true) (new ";;")) else loaded), h)
      | none ↦ elim (d.load_cell_ref c) [
        | none ↦ (err no_data, h)
        | some s ↦ remember c (load_code s false h)
      ]
    ]

    unfoldable pub load_reference :
        (Slice → Bool → History → Loading Code) → Option Cell → History → Loading Code
    unfolding load_cell_impl
    load_reference load_code none h = (ok (single (new ";; missing cell")), h)
    load_reference load_code (some c) h = load_cell_impl load_code c h

    -- The recursion into cells and continuations, on fuel.
    unfoldable pub load_code : ℕ → Slice → Bool → History → Loading Code
    unfolding load_reference finish_load load_slice
    load_code zero s inline h = (err out_of_fuel, h)
    load_code (suc fuel) s inline h =
        let inner = load_code fuel in
        finish_load (load_reference inner) s inline
          (load_slice inner (load_reference inner) table (suc (size s.data_bits)) s h)
