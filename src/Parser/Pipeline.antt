-- ===== src/Parser/Pipeline.antt =====
-- `ParseEngine::new_generic` and `parse` of src/parser.rs: the passes in their order.
pub mod Consistent
mod Renamed
use tvm_linker.Prelude.{
  ℕ, Option, none, some, List, [], ◌∷◌, String, Bool, true, false, if◌then◌else◌,
}
use tvm_linker.Outcome.{Error, out_of_fuel, bad_abi, Result, ok, err, ◌>>=◌}
use tvm_linker.Parser.State.{ParseEngine, blank_engine, preinit}
use tvm_linker.Parser.Externals.{Externals}
use tvm_linker.Parser.Code.{parse_code}
use tvm_linker.Parser.Fragments.{compat_rename_all_macro_calls, resolve_fragments}
use tvm_linker.Parser.Labels.{replace_all_labels}
use tvm_linker.Parser.Unused.{drop_unused_objects}

-- A file: its name and what `read_line` returns.
abbrev pub Input : Type 0
Input = String × List (Option String)

unfoldable pub dropped : Option ParseEngine → Result ParseEngine
dropped none = err out_of_fuel
dropped (some e) = ok e

unfoldable pub drop_unused : ParseEngine → Result ParseEngine
unfolding dropped
drop_unused e = if e.save_all_private_functions then ok e else dropped (drop_unused_objects e)

module _ (x : Externals) where
  unfoldable pub set_abi : Option String → ParseEngine → Result ParseEngine
  set_abi none e = ok e
  set_abi (some s) e = elim (x.load_abi s) [
    | none ↦ err bad_abi
    | some contract ↦ ok (record e { abi = some contract })
  ]

  unfoldable pub parse_inputs : List Input → ParseEngine → Result ParseEngine
  parse_inputs [] e = ok e
  parse_inputs ((filename, input) ∷ inputs) e = do
    e' ← parse_code x filename input e
    parse_inputs inputs e'

  -- The fuel is for the recursion of `compute_cell`.
  unfoldable pub parse : ℕ → List Input → Option String → ParseEngine → Result ParseEngine
  unfolding set_abi drop_unused
  parse fuel inputs abi_json e = do
    with_abi ← set_abi abi_json e
    read ← parse_inputs inputs (preinit with_abi)
    renamed ← compat_rename_all_macro_calls x read
    resolved ← resolve_fragments x renamed
    replaced ← replace_all_labels x fuel resolved
    drop_unused replaced

  unfoldable pub new_generic : ℕ → List Input → Option String → Result ParseEngine
  new_generic fuel inputs abi_json = parse fuel inputs abi_json blank_engine
