-- ===== src/Parser/Compute.antt =====
-- `compute_cell` and `encode_computed_cell` of src/parser.rs: the cells of `.compute` lines.
pub mod Cycles
pub mod Cache
use tvm_linker.Prelude.{
  ℕ, zero, suc, Option, none, some, List, [], ◌∷◌, ◌++◌, String, Bool, true, false, if◌then◌else◌,
  str_append, lookup, insert, string_key,
}
use tvm_linker.Outcome.{Error, out_of_fuel, macro_not_found, compute_failed, Result, ok, err, ◌>>=◌}
use tvm_linker.Parser.State.{Line, Lines, ParseEngine}
use tvm_linker.Parser.Cell.{Cell, cell, Cells, no_cells, more_cells}
use tvm_linker.Parser.Externals.{Externals}

abbrev pub WithEngine : Type 0 → Type 0
WithEngine A = Result (A × ParseEngine)

module _ (x : Externals) where
  unfoldable mutual
    pub encode_computed_cell : Cell → Bool → Lines
    encode_computed_cell (cell hex references) toplevel =
        x.new_line (if toplevel then "{\n" else ".cell {\n") "" 0
        ∷ x.new_line (str_append ".blob x" (str_append hex "\n")) "" 0
        ∷ (encode_references references ++ (x.new_line "}\n" "" 0 ∷ []))

    pub encode_references : Cells → Lines
    encode_references no_cells = []
    encode_references (more_cells c cs) = encode_computed_cell c false ++ encode_references cs

  -- The lines of a macro, with the cells of its `.compute` lines in their place.
  unfoldable pub collect :
      (String → ParseEngine → WithEngine Lines) → Lines → ParseEngine → WithEngine Lines
  collect compute [] e = ok ([], e)
  collect compute (l ∷ lines) e =
      let rest = collect compute lines in
      elim (x.compute l.text) [
        | none ↦ do (collected, e') ← rest e; ok (l ∷ collected, e')
        | some name ↦ do
          (computed, e') ← compute name e
          (collected, e'') ← rest e'
          ok (computed ++ collected, e'')
      ]

  -- The assembly, the run and the encoding, and the entry in the cache.
  unfoldable pub run_collected : String → Lines × ParseEngine → WithEngine Lines
  unfolding encode_computed_cell
  run_collected name (collected, e) = elim (x.execute collected) [
    | none ↦ err compute_failed
    | some c ↦
        let res = encode_computed_cell c true in
        ok (res, record e { computed = insert name res e.computed })
  ]

  -- The recursion on fuel; see Compute/Cycles for how much there has to be.
  unfoldable pub compute_cell : ℕ → String → ParseEngine → WithEngine Lines
  unfolding collect run_collected
  compute_cell zero name e = err out_of_fuel
  compute_cell (suc fuel) name e = elim (lookup name e.computed) [
    | some lines ↦ ok (lines, e)
    | none ↦ elim (lookup name e.macro_name_to_lines) [
      | none ↦ err macro_not_found
      | some lines ↦ collect (compute_cell fuel) lines e >>= run_collected name
    ]
  ]
