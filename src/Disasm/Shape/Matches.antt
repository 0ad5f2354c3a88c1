-- ===== src/Disasm/Shape/Matches.antt =====
-- Which cells a `Shape` of src/disasm/types.rs accepts.
use tvm_linker.Prelude.{ℕ, suc, ◌*◌, List, [], ◌∷◌, true, ◌≡◌, ◌↔◌, refl, ap, arith, nat_beq_iff}
use tvm_linker.Outcome.{Result, ok, >>=-eq-ok}
use tvm_linker.Parser.Cell.{Cell, cell, Cells, no_cells, more_cells}
use tvm_linker.Disasm.Operands.{size}
use tvm_linker.Disasm.Shape.{
  any, literal, var, Shape, shape, Shapes, no_shapes, more_shapes, shapes_count, cells_count,
  bytes_eq, first_bytes, Captures, extend, check_data, check_children, captures, captures_all,
}

bytes_eq_iff : (xs ys : List ℕ) → (bytes_eq xs ys ≡ true) ↔ (xs ≡ ys)
unfolding bytes_eq
bytes_eq_iff [] [] = (λ h. refl, λ h. refl)
bytes_eq_iff [] (b ∷ ys) = (λ h. cc h, λ h. cc h)
bytes_eq_iff (a ∷ xs) [] = (λ h. cc h, λ h. cc h)
bytes_eq_iff (a ∷ xs) (b ∷ ys) = ground (arith, bytes_eq_iff xs ys)

-- Something is captured.
abbrev pub Captured : Result Captures → Type 0
Captured r = (m : Captures) × (r ≡ ok m)

module _ (bit_length : Cell → ℕ) (data_of : Cell → List ℕ) where
  -- The cells of the shape, child by child.
  unfoldable mutual
    pub Fits : Shape → Cell → Type 0
    Fits (shape any refs) c = Unit {0}
    Fits (shape (var name) refs) c = Unit {0}
    Fits (shape (literal bytes) refs) (cell hex cs) =
        (bit_length (cell hex cs) ≡ size bytes * 8)
        × ((first_bytes (size bytes) (data_of (cell hex cs)) ≡ bytes) × AllFit refs cs)

    pub AllFit : Shapes → Cells → Type 0
    AllFit no_shapes no_cells = Unit {0}
    AllFit no_shapes (more_cells c cs) = ⊥
    AllFit (more_shapes s rest) no_cells = ⊥
    AllFit (more_shapes s rest) (more_cells c cs) = Fits s c × AllFit rest cs

  pub check_data_iff :
      (bytes : List ℕ) (c : Cell)
      → (check_data bit_length data_of bytes c ≡ ok tt)
        ↔ ((bit_length c ≡ size bytes * 8) × (first_bytes (size bytes) (data_of c) ≡ bytes))
  unfolding check_data
  check_data_iff bytes c = ground (
    arith,
    bytes_eq_iff (first_bytes (size bytes) (data_of c)) bytes,
    nat_beq_iff (bit_length c) (size bytes * 8),
  )

  pub AllFit-count :
      (refs : Shapes) (cs : Cells) → AllFit refs cs → shapes_count refs ≡ cells_count cs
  unfolding AllFit shapes_count cells_count
  AllFit-count no_shapes no_cells h = refl
  AllFit-count no_shapes (more_cells c cs) h = absurd h
  AllFit-count (more_shapes s rest) no_cells h = absurd h
  AllFit-count (more_shapes s rest) (more_cells c cs) (h, k) = ap suc (AllFit-count rest cs k)

  pub check_children_iff :
      (refs : Shapes) (cs : Cells)
      → (check_children bit_length data_of refs cs ≡ ok tt) ↔ (shapes_count refs ≡ cells_count cs)
  unfolding check_children
  check_children_iff refs cs = ground (arith, nat_beq_iff (shapes_count refs) (cells_count cs))

  mutual
    unfolding captures captures_all Fits AllFit shapes_count cells_count

    captures-there : (s : Shape) (c : Cell) → Captured (captures bit_length data_of s c) → Fits s c
    captures-there (shape any refs) c h = tt
    captures-there (shape (var name) refs) c h = tt
    captures-there (shape (literal bytes) refs) (cell hex cs) (m, h) =
        let (u, fits, counted) =
          >>=-eq-ok (check_data bit_length data_of bytes (cell hex cs)) _ h in
        let (v, same, children) = >>=-eq-ok (check_children bit_length data_of refs cs) _ counted in
        let (long, equal) = (check_data_iff bytes (cell hex cs)).0 fits in
        (
          long,
          (
            equal,
            captures_all-there refs cs [] ((check_children_iff refs cs).0 same) (m, children),
          ),
        )

    captures_all-there :
        (refs : Shapes) (cs : Cells) (m : Captures)
        → shapes_count refs ≡ cells_count cs
        → Captured (captures_all bit_length data_of refs cs m)
        → AllFit refs cs
    captures_all-there no_shapes no_cells m e h = tt
    captures_all-there no_shapes (more_cells c cs) m e (n, h) = cc h
    captures_all-there (more_shapes s rest) no_cells m e h = absurd (omega (arith, e))
    captures_all-there (more_shapes s rest) (more_cells c cs) m e (n, h) =
        let (found, first, others) = >>=-eq-ok (captures bit_length data_of s c) _ h in
        (
          captures-there s c (found, first),
          captures_all-there rest cs (extend m found) (omega (arith, e)) (n, others),
        )

  mutual
    unfolding captures captures_all Fits AllFit

    captures-back : (s : Shape) (c : Cell) → Fits s c → Captured (captures bit_length data_of s c)
    captures-back (shape any refs) c h = (_, refl)
    captures-back (shape (var name) refs) c h = (_, refl)
    captures-back (shape (literal bytes) refs) (cell hex cs) (long, (equal, all)) =
        let (m, children) = captures_all-back refs cs [] all in
        let fits = (check_data_iff bytes (cell hex cs)).1 (long, equal) in
        let same = (check_children_iff refs cs).1 (AllFit-count refs cs all) in
        (m, rw (fits, same) children)

    captures_all-back :
        (refs : Shapes) (cs : Cells) (m : Captures)
        → AllFit refs cs
        → Captured (captures_all bit_length data_of refs cs m)
    captures_all-back no_shapes no_cells m h = (m, refl)
    captures_all-back no_shapes (more_cells c cs) m h = absurd h
    captures_all-back (more_shapes s rest) no_cells m h = absurd h
    captures_all-back (more_shapes s rest) (more_cells c cs) m (h, k) =
        let (found, first) = captures-back s c h in
        let (n, others) = captures_all-back rest cs (extend m found) k in (n, rw first others)

  -- Where a shape captures something, child by child.
  pub captures-Fits : (s : Shape) (c : Cell) → Captured (captures bit_length data_of s c) ↔ Fits s c
  captures-Fits s c = (captures-there s c, captures-back s c)
