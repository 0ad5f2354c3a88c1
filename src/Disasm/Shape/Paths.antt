-- ===== src/Disasm/Shape/Paths.antt =====
-- The nodes of shapes and cells by their paths: the numbers of the children from the root on.
use tvm_linker.Prelude.{
  ℕ, zero, suc, ◌*◌, List, [], ◌∷◌, Option, none, some, some-eq, ◌≡◌, ◌↔◌, refl, ap, sym, subst,
  arith,
}
use tvm_linker.Parser.Cell.{Cell, cell, Cells, no_cells, more_cells}
use tvm_linker.Disasm.Operands.{size}
use tvm_linker.Disasm.Shape.{
  ShapeKind, any, literal, var, Shape, shape, Shapes, no_shapes, more_shapes, shapes_count,
  cells_count, first_bytes,
}
use tvm_linker.Disasm.Shape.Matches.{Captured, Fits, AllFit, AllFit-count, captures-Fits}
use tvm_linker.Disasm.Shape.{captures}

-- Only a literal node is looked into.
unfoldable mutual
  pub shape_at : List ℕ → Shape → Option Shape
  shape_at [] s = some s
  shape_at (i ∷ path) (shape any refs) = none
  shape_at (i ∷ path) (shape (var name) refs) = none
  shape_at (i ∷ path) (shape (literal bytes) refs) = shape_in i path refs

  pub shape_in : ℕ → List ℕ → Shapes → Option Shape
  shape_in i path no_shapes = none
  shape_in zero path (more_shapes s rest) = shape_at path s
  shape_in (suc i) path (more_shapes s rest) = shape_in i path rest

unfoldable mutual
  pub cell_at : List ℕ → Cell → Option Cell
  cell_at [] c = some c
  cell_at (i ∷ path) (cell hex cs) = cell_in i path cs

  pub cell_in : ℕ → List ℕ → Cells → Option Cell
  cell_in i path no_cells = none
  cell_in zero path (more_cells c rest) = cell_at path c
  cell_in (suc i) path (more_cells c rest) = cell_in i path rest

unfoldable pub children : Cell → Cells
children (cell hex cs) = cs

module _ (bit_length : Cell → ℕ) (data_of : Cell → List ℕ) where
  -- A cell with these bytes and as many children as the shape's node.
  abbrev Agrees : List ℕ → Shapes → Cell → Type 0
  Agrees bytes refs c =
      (bit_length c ≡ size bytes * 8)
      × ((first_bytes (size bytes) (data_of c) ≡ bytes)
          × (shapes_count refs ≡ cells_count (children c)))

  -- At the path of each literal node there is such a cell.
  abbrev pub Matches : Shape → Cell → Type 0
  Matches s c =
      (path : List ℕ) (bytes : List ℕ) (refs : Shapes)
      → shape_at path s ≡ some (shape (literal bytes) refs)
      → (there : Cell) × ((cell_at path c ≡ some there) × Agrees bytes refs there)

  abbrev MatchesIn : Shapes → Cells → Type 0
  MatchesIn rs cs =
      (i : ℕ) (path : List ℕ) (bytes : List ℕ) (refs : Shapes)
      → shape_in i path rs ≡ some (shape (literal bytes) refs)
      → (there : Cell) × ((cell_in i path cs ≡ some there) × Agrees bytes refs there)

  kind_of : Shape → ShapeKind
  kind_of (shape kind refs) = kind

  refs_of : Shape → Shapes
  refs_of (shape kind refs) = refs

  bytes_of : ShapeKind → List ℕ
  bytes_of any = []
  bytes_of (var name) = []
  bytes_of (literal bytes) = bytes

  mutual
    unfolding shape_at shape_in cell_at cell_in children Fits AllFit kind_of refs_of bytes_of

    Fits-Matches : (s : Shape) (c : Cell) → Fits bit_length data_of s c → Matches s c
    Fits-Matches (shape any refs) c h [] bytes r at = cc (ap kind_of (some-eq at))
    Fits-Matches (shape any refs) c h (i ∷ path) bytes r at = cc at
    Fits-Matches (shape (var name) refs) c h [] bytes r at = cc (ap kind_of (some-eq at))
    Fits-Matches (shape (var name) refs) c h (i ∷ path) bytes r at = cc at
    Fits-Matches (shape (literal b) refs) (cell hex cs) (long, (equal, all)) [] bytes r at =
        let same_bytes : b ≡ bytes = ap (λ s. bytes_of (kind_of s)) (some-eq at) in
        let same_refs : refs ≡ r = ap refs_of (some-eq at) in
        (
          cell hex cs,
          (
            refl,
            subst (λ t. Agrees t r (cell hex cs)) same_bytes
                (subst (λ t. Agrees b t (cell hex cs)) same_refs
                  (long, (equal, AllFit-count bit_length data_of refs cs all))),
          ),
        )
    Fits-Matches (shape (literal b) refs) (cell hex cs) (long, (equal, all)) (i ∷ path) bytes r at =
        AllFit-MatchesIn refs cs all i path bytes r at

    AllFit-MatchesIn :
        (rs : Shapes) (cs : Cells) → AllFit bit_length data_of rs cs → MatchesIn rs cs
    AllFit-MatchesIn no_shapes cs h i path bytes r at = cc at
    AllFit-MatchesIn (more_shapes s rest) no_cells h i path bytes r at = absurd h
    AllFit-MatchesIn (more_shapes s rest) (more_cells c cs) (h, k) zero path bytes r at =
        Fits-Matches s c h path bytes r at
    AllFit-MatchesIn (more_shapes s rest) (more_cells c cs) (h, k) (suc i) path bytes r at =
        AllFit-MatchesIn rest cs k i path bytes r at

  mutual
    unfolding shape_at shape_in cell_at cell_in children Fits AllFit shapes_count cells_count

    Matches-Fits : (s : Shape) (c : Cell) → Matches s c → Fits bit_length data_of s c
    Matches-Fits (shape any refs) c m = tt
    Matches-Fits (shape (var name) refs) c m = tt
    Matches-Fits (shape (literal b) refs) (cell hex cs) m =
        let (there, (found, agrees)) = m [] b refs refl in
        let (long, (equal, counted)) = subst (Agrees b refs) (sym (some-eq found)) agrees in
        (
          long,
          (equal, MatchesIn-AllFit refs cs counted (λ i path bytes r at. m (i ∷ path) bytes r at)),
        )

    MatchesIn-AllFit :
        (rs : Shapes) (cs : Cells)
        → shapes_count rs ≡ cells_count cs
        → MatchesIn rs cs
        → AllFit bit_length data_of rs cs
    MatchesIn-AllFit no_shapes no_cells e m = tt
    MatchesIn-AllFit no_shapes (more_cells c cs) e m = absurd (omega (arith, e))
    MatchesIn-AllFit (more_shapes s rest) no_cells e m = absurd (omega (arith, e))
    MatchesIn-AllFit (more_shapes s rest) (more_cells c cs) e m = (
      Matches-Fits s c (λ path bytes r at. m zero path bytes r at),
      MatchesIn-AllFit rest cs (omega (arith, e)) (λ i path bytes r at. m (suc i) path bytes r at),
    )

  -- A shape captures something of a cell exactly if, at the path of each literal node of the shape that
  -- is reached through literal nodes alone, the cell has a cell with the node's bytes, no bits behind
  -- them, and as many children as the node.
  pub captures_iff :
      (s : Shape) (c : Cell) → Captured (captures bit_length data_of s c) ↔ Matches s c
  captures_iff s c =
      let (there, back) = captures-Fits bit_length data_of s c in
      (λ h. Fits-Matches s c (there h), λ m. back (Matches-Fits s c m))
