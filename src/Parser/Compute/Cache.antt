-- ===== src/Parser/Compute/Cache.antt =====
-- The cache of `compute_cell` of src/parser.rs.
use tvm_linker.Prelude.{
  ℕ, zero, suc, String, some, ◌≡◌, refl, subst, ◌∙◌, Option-cases, inl, inr, lookup, lookup-insert,
  string_key,
}
use tvm_linker.Outcome.{ok, >>=-eq-ok, ok-injective}
use tvm_linker.Parser.State.{Lines, ParseEngine}
use tvm_linker.Parser.Externals.{Externals}
use tvm_linker.Parser.Compute.{collect, run_collected, compute_cell}

module _ (x : Externals) where
  run_collected-cached :
      (name : String) (collected lines : Lines) (e e' : ParseEngine)
      → run_collected x name (collected, e) ≡ ok (lines, e')
      → lookup name e'.computed ≡ some lines
  unfolding run_collected
  run_collected-cached name collected lines e e' h = elim (Option-cases (x.execute collected)) [
    | inl failed ↦ cc (rw (failed, run_collected) at h)
    | inr (c, there) ↦
        subst (λ p. lookup name p.1.computed ≡ some p.0)
          (ok-injective (rw (there, run_collected) at h))
          (lookup-insert name name _ e.computed ∙ rw ((string_key.beq_iff name name).1 refl) refl)
  ]

  compute_cell-cached :
      (fuel : ℕ) (name : String) (e e' : ParseEngine) (lines : Lines)
      → compute_cell x fuel name e ≡ ok (lines, e')
      → lookup name e'.computed ≡ some lines
  unfolding compute_cell
  compute_cell-cached zero name e e' lines h = cc h
  compute_cell-cached (suc fuel) name e e' lines h = elim (Option-cases (lookup name e.computed)) [
    | inr (old, cached) ↦
        subst (λ p. lookup name p.1.computed ≡ some p.0)
          (ok-injective (rw (cached, compute_cell) at h)) cached
    | inl new ↦ elim (Option-cases (lookup name e.macro_name_to_lines)) [
      | inl missing ↦ cc (rw (new, missing, compute_cell) at h)
      | inr (body, found) ↦
          let ((collected, f), first, last) =
            >>=-eq-ok (collect x (compute_cell x fuel) body e) (run_collected x name)
              (rw (new, found, compute_cell) at h) in
          run_collected-cached name collected lines f e' last
    ]
  ]

  -- Once the cell of a macro is computed, computing it again gives the same lines and changes nothing.
  pub compute_cell_again :
      (fuel again : ℕ) (name : String) (e e' : ParseEngine) (lines : Lines)
      → compute_cell x fuel name e ≡ ok (lines, e')
      → compute_cell x (suc again) name e' ≡ ok (lines, e')
  unfolding compute_cell
  compute_cell_again fuel again name e e' lines h =
      rw (compute_cell-cached fuel name e e' lines h, compute_cell) refl
