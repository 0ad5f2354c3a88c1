-- ===== src/Disasm/Shape.antt =====
-- `Shape` of src/disasm/types.rs: patterns of cells, and the cells that their variables capture.
pub mod Matches
pub mod Paths
pub mod Found
use tvm_linker.Prelude.{
  ℕ, zero, suc, ◌*◌, ◌==◌, ◌&&◌, List, [], ◌∷◌, String, Bool, true, false, if◌then◌else◌, Dict,
  insert, string_key,
}
use tvm_linker.Outcome.{Error, panic, wrong_shape, Result, ok, err, ◌>>=◌}
use tvm_linker.Parser.Cell.{Cell, cell, Cells, no_cells, more_cells}
use tvm_linker.Disasm.Operands.{size}

pub data ShapeKind : Type 0 where
  any : ShapeKind
  literal : List ℕ → ShapeKind
  var : String → ShapeKind

mutual
  pub data Shape : Type 0 where
    shape : (kind : ShapeKind) (refs : Shapes) → Shape

  pub data Shapes : Type 0 where
    no_shapes : Shapes
    more_shapes : Shape → Shapes → Shapes

unfoldable pub add_shape : Shapes → Shape → Shapes
add_shape no_shapes node = more_shapes node no_shapes
add_shape (more_shapes s rest) node = more_shapes s (add_shape rest node)

unfoldable pub branch : Shape → Shape → Shape
unfolding add_shape
branch (shape kind refs) node = shape kind (add_shape refs node)

unfoldable pub shapes_count : Shapes → ℕ
shapes_count no_shapes = 0
shapes_count (more_shapes s rest) = suc (shapes_count rest)

unfoldable pub cells_count : Cells → ℕ
cells_count no_cells = 0
cells_count (more_cells c cs) = suc (cells_count cs)

unfoldable pub bytes_eq : List ℕ → List ℕ → Bool
bytes_eq [] [] = true
bytes_eq [] (b ∷ bs) = false
bytes_eq (a ∷ xs) [] = false
bytes_eq (a ∷ xs) (b ∷ bs) = (a == b) && bytes_eq xs bs

unfoldable pub first_bytes : ℕ → List ℕ → List ℕ
first_bytes zero bs = []
first_bytes (suc n) [] = []
first_bytes (suc n) (b ∷ bs) = b ∷ first_bytes n bs

abbrev pub Captures : Type 0
Captures = Dict String Cell

-- `map.extend`
unfoldable pub extend : Captures → Captures → Captures
extend m [] = m
extend m ((name, c) ∷ others) = extend (insert name c m) others

-- Of a cell, the length of its data in bits and the data in bytes.
module _ (bit_length : Cell → ℕ) (data_of : Cell → List ℕ) where
  unfoldable pub check_data : List ℕ → Cell → Result (Unit {0})
  check_data bytes c =
      if bit_length c == size bytes * 8
      then (if bytes_eq (first_bytes (size bytes) (data_of c)) bytes
          then ok tt
          else err wrong_shape)
      else err wrong_shape

  unfoldable pub check_children : Shapes → Cells → Result (Unit {0})
  check_children refs cs = if shapes_count refs == cells_count cs then ok tt else err wrong_shape

  unfoldable mutual
    pub captures : Shape → Cell → Result Captures
    captures (shape any refs) c = ok []
    captures (shape (var name) refs) c = ok ((name, c) ∷ [])
    captures (shape (literal bytes) refs) (cell hex cs) =
        let children = captures_all refs cs in
        check_data bytes (cell hex cs)
        >>= (λ fits. check_children refs cs >>= (λ counted. children []))

    -- The loop over the children; the lengths were compared before.
    pub captures_all : Shapes → Cells → Captures → Result Captures
    captures_all no_shapes no_cells m = ok m
    captures_all no_shapes (more_cells c cs) m = err panic
    captures_all (more_shapes s rest) no_cells m = ok m
    captures_all (more_shapes s rest) (more_cells c cs) m =
        let first = captures s c in
        let others = captures_all rest cs in first >>= (λ found. others (extend m found))
