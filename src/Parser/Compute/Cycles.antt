-- ===== src/Parser/Compute/Cycles.antt =====
-- The recursion of `compute_cell` of src/parser.rs along the `.compute` lines of macros.
use tvm_linker.Prelude.{
  ℕ, zero, suc, ◌<◌, [], ◌∷◌, ◌++◌, String, none, some, ◌≡◌, ◌≢◌, refl, subst, Option-cases, inl,
  inr, Has, Dict, lookup, string_key, arith,
}
use tvm_linker.Outcome.{out_of_fuel, ok, err, ◌>>=◌}
use tvm_linker.Parser.State.{Line, Lines, ParseEngine}
use tvm_linker.Parser.Externals.{Externals}
use tvm_linker.Parser.Compute.{WithEngine, collect, run_collected, compute_cell}

-- A line of the macro computes the other.
pub record Computes (x : Externals) (macros : Dict String Lines) (a b : String) : Type 0 where
  pub lines : Lines
  pub line : Line
  pub body : lookup a macros ≡ some lines
  pub member : Has line lines
  pub target : x.compute line.text ≡ some b

-- The first such line of a macro that has no cell yet.
pub record ComputesFirst (x : Externals) (e : ParseEngine) (a b : String) : Type 0 where
  pub plain : Lines
  pub line : Line
  pub rest : Lines
  pub new : lookup a e.computed ≡ none
  pub body : lookup a e.macro_name_to_lines ≡ some (plain ++ line ∷ rest)
  pub no_target : (l : Line) → Has l plain → x.compute l.text ≡ none
  pub target : x.compute line.text ≡ some b

module _ (x : Externals) where
  module _ (macros : Dict String Lines) (rank : String → ℕ)
      (ranked : (a b : String) → Computes x macros a b → rank b < rank a) where
    -- Nothing but the fuel is ruled out as a cause of failure, and the macros stay.
    abbrev Ends : {A : Type 0} → WithEngine A → Type 0
    Ends (ok p) = p.1.macro_name_to_lines ≡ macros
    Ends (err why) = why ≢ out_of_fuel

    Ends-bind :
        {A B : Type 0} (m : WithEngine A) (next : A × ParseEngine → WithEngine B)
        → Ends m
        → ((a : A) (e : ParseEngine) → e.macro_name_to_lines ≡ macros → Ends (next (a, e)))
        → Ends (m >>= next)
    Ends-bind (err why) next h k = h
    Ends-bind (ok (a, e)) next h k = k a e h

    collect-Ends :
        (compute : String → ParseEngine → WithEngine Lines) (lines : Lines) (e : ParseEngine)
        → ((l : Line) (b : String) (f : ParseEngine)
            → Has l lines
            → x.compute l.text ≡ some b
            → f.macro_name_to_lines ≡ macros
            → Ends (compute b f))
        → e.macro_name_to_lines ≡ macros
        → Ends (collect x compute lines e)
    unfolding collect
    collect-Ends compute [] e step h = h
    collect-Ends compute (l ∷ lines) e step h =
        let later : (f : ParseEngine)
            → f.macro_name_to_lines ≡ macros
            → Ends (collect x compute lines f) =
          λ f k. collect-Ends compute lines f (λ j b g m. step j b g (inr m)) k in
        elim (Option-cases (x.compute l.text)) [
          | inl plain ↦
              rw (plain, collect)
                (Ends-bind (collect x compute lines e) _ (later e h) (λ collected f k. k))
          | inr (b, there) ↦
              rw (there, collect)
                (Ends-bind (compute b e) _ (step l b e (inl refl) there h) (λ computed f k.
                  Ends-bind (collect x compute lines f) _ (later f k) (λ collected g j. j)))
        ]

    run_collected-Ends :
        (name : String) (lines : Lines) (e : ParseEngine)
        → e.macro_name_to_lines ≡ macros
        → Ends (run_collected x name (lines, e))
    unfolding run_collected
    run_collected-Ends name lines e h = elim (Option-cases (x.execute lines)) [
      | inl failed ↦ rw (failed, run_collected) (λ same. cc same)
      | inr (c, there) ↦ rw (there, run_collected) h
    ]

    compute_cell-Ends :
        (fuel : ℕ) (name : String) (e : ParseEngine)
        → rank name < fuel
        → e.macro_name_to_lines ≡ macros
        → Ends (compute_cell x fuel name e)
    unfolding compute_cell
    compute_cell-Ends zero name e lt h = absurd (omega (arith, lt))
    compute_cell-Ends (suc fuel) name e lt h = elim (Option-cases (lookup name e.computed)) [
      | inr (lines, cached) ↦ rw (cached, compute_cell) h
      | inl new ↦ elim (Option-cases (lookup name e.macro_name_to_lines)) [
        | inl missing ↦ rw (new, missing, compute_cell) (λ same. cc same)
        | inr (lines, found) ↦
            let body : lookup name macros ≡ some lines =
              subst (λ m. lookup name m ≡ some lines) h found in
            rw (new, found, compute_cell)
              (Ends-bind (collect x (compute_cell x fuel) lines e) (run_collected x name)
                (collect-Ends (compute_cell x fuel) lines e
                  (λ l b f m there k.
                    let falls = ranked name b (record {
                      lines = lines;
                      line = l;
                      body = body;
                      member = m;
                      target = there;
                    }) in
                    compute_cell-Ends fuel b f (omega (arith, lt, falls)) k)
                  h)
                (run_collected-Ends name))
      ]
    ]

    Ends-fuel : {A : Type 0} (r : WithEngine A) → Ends r → r ≢ err out_of_fuel
    Ends-fuel (ok p) h same = cc same
    Ends-fuel (err why) h same = h (cc same)

    -- Where a rank falls along each `.compute` line of the macros, the recursion ends: fuel above the
    -- rank of a macro is enough to compute its cell, or to fail for another reason.
    pub compute_cell_terminates :
        (fuel : ℕ) (name : String) (e : ParseEngine)
        → rank name < fuel
        → e.macro_name_to_lines ≡ macros
        → compute_cell x fuel name e ≢ err out_of_fuel
    compute_cell_terminates fuel name e lt h =
        Ends-fuel (compute_cell x fuel name e) (compute_cell-Ends fuel name e lt h)

  collect-stuck :
      (compute : String → ParseEngine → WithEngine Lines) (plain : Lines) (l : Line) (rest : Lines)
      (b : String) (e : ParseEngine)
      → ((k : Line) → Has k plain → x.compute k.text ≡ none)
      → x.compute l.text ≡ some b
      → compute b e ≡ err out_of_fuel
      → collect x compute (plain ++ l ∷ rest) e ≡ err out_of_fuel
  unfolding collect
  collect-stuck compute [] l rest b e p t h = rw (t, collect, h) refl
  collect-stuck compute (k ∷ plain) l rest b e p t h =
      rw (p k (inl refl), collect, collect-stuck compute plain l rest b e (λ j m. p j (inr m)) t h)
        refl

  -- Where the first `.compute` line of each macro of a family names one of the family again, and none
  -- of them has a cell yet, `compute_cell` never ends for them: no fuel is enough.
  pub compute_cell_diverges :
      (Cyclic : String → Type 0) (e : ParseEngine)
      → ((a : String) → Cyclic a → (b : String) × (Cyclic b × ComputesFirst x e a b))
      → (fuel : ℕ) (a : String) → Cyclic a
      → compute_cell x fuel a e ≡ err out_of_fuel
  unfolding compute_cell
  compute_cell_diverges Cyclic e next zero a c = refl
  compute_cell_diverges Cyclic e next (suc fuel) a c =
      let (b, (again, f)) = next a c in
      rw
        (
          f.new,
          f.body,
          compute_cell,
          collect-stuck (compute_cell x fuel) f.plain f.line f.rest b e f.no_target f.target
              (compute_cell_diverges Cyclic e next fuel b again),
        )
        refl
