-- ===== src/Samples/Unused.antt =====
-- `drop_unused_objects` of src/parser.rs on a public function that calls a second one, and a third
-- one that nothing calls.
use tvm_linker.Prelude.{
  ℕ, ◌∷◌, [], List, some, true, false, string_key, ◌≡◌, refl, ◌↔◌, inl, inr, contains, include,
}
use tvm_linker.Parser.State.{func, ParseEngine, blank_engine}
use tvm_linker.Parser.Unused.{
  find_func, used_ids, roots, public_funcs, internal_funcs, enum_roots, enum_calling_funcs,
  enum_called, enum_found, drop_unused_objects,
}
use tvm_linker.Parser.Unused.Reached.{Reached, IsResolved, used_ids_iff}
use tvm_linker.Parser.Unused.Termination.{used_ids_total}
use tvm_linker.Parser.Unused.Kept.{IsPruned, drop_unused_objects-IsPruned}
use tvm_linker.Samples.Inputs.{routine}

unfoldable program : ParseEngine
unfolding blank_engine
program = record blank_engine {
  globl_name_to_object =
      ("helper", routine "helper" false 7 [])
      ∷ ("main", routine "main" true 5 (7 ∷ []))
      ∷ ("spare", routine "spare" false 9 (7 ∷ []))
      ∷ [];
  globl_name_to_id = ("helper", 7) ∷ ("main", 5) ∷ ("spare", 9) ∷ [];
}

program-IsResolved : IsResolved program.globl_name_to_object (roots program)
unfolding program find_func roots public_funcs internal_funcs func blank_engine
program-IsResolved f g (inl e) h = cc
program-IsResolved f g (inr n) h = absurd n

ids : used_ids program ≡ some (7 ∷ 5 ∷ [])
unfolding used_ids program find_func roots public_funcs internal_funcs func blank_engine enum_roots
    enum_calling_funcs enum_called enum_found contains include
ids = refl

used_ids_iff_example : (contains 7 (7 ∷ 5 ∷ []) ≡ true) ↔ Reached program 7
used_ids_iff_example = used_ids_iff program (7 ∷ 5 ∷ []) 7 program-IsResolved ids

used_ids_total_example : (found : List ℕ) × (used_ids program ≡ some found)
used_ids_total_example = used_ids_total program

drop_unused_objects-IsPruned_example :
    (e : ParseEngine) × (drop_unused_objects program ≡ some e) × IsPruned program e
drop_unused_objects-IsPruned_example = drop_unused_objects-IsPruned program program-IsResolved
