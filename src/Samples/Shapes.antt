-- ===== src/Samples/Shapes.antt =====
-- `Shape::captures` of src/disasm/types.rs on a cell with one child.
use tvm_linker.Prelude.{
  ℕ, suc, zero, List, [], ◌∷◌, some, some-eq, lookup, insert, string_key, ◌≡◌, ◌↔◌, refl,
}
use tvm_linker.Outcome.{ok}
use tvm_linker.Parser.Cell.{Cell, cell, no_cells, more_cells}
use tvm_linker.Disasm.Operands.{size}
use tvm_linker.Disasm.Shape.{
  Shape, shape, literal, var, no_shapes, more_shapes, captures, captures_all, check_data,
  check_children, shapes_count, cells_count, bytes_eq, first_bytes, extend, Captures,
}
use tvm_linker.Disasm.Shape.Matches.{Captured}
use tvm_linker.Disasm.Shape.Paths.{shape_at, shape_in, Matches, captures_iff}
use tvm_linker.Disasm.Shape.Found.{Binds, IsSingle, captures-Binds_iff}

abbrev eight : Cell → ℕ
eight c = 8

abbrev ten : Cell → List ℕ
ten c = 10 ∷ []

abbrev pattern_cell : Shape
pattern_cell = shape (literal (10 ∷ [])) (more_shapes (shape (var "child") no_shapes) no_shapes)

abbrev leaf : Cell
leaf = cell "0b" no_cells

abbrev whole : Cell
whole = cell "0a" (more_cells leaf no_cells)

captures_iff_example :
    Captured (captures eight ten pattern_cell whole) ↔ Matches eight ten pattern_cell whole
captures_iff_example = captures_iff eight ten pattern_cell whole

abbrev found : Captures
found = ("child", leaf) ∷ []

whole-captured : captures eight ten pattern_cell whole ≡ ok found
unfolding captures captures_all check_data check_children shapes_count cells_count bytes_eq
    first_bytes extend size insert
whole-captured = refl

-- The only path of the variable.
child-at :
    (path : List ℕ) (refs : _)
    → shape_at path pattern_cell ≡ some (shape (var "child") refs)
    → path ≡ 0 ∷ []
unfolding shape_at shape_in
child-at [] refs h = cc (some-eq h)
child-at (zero ∷ []) refs h = refl
child-at (zero ∷ i ∷ path) refs h = cc h
child-at (suc i ∷ path) refs h = cc h

child-IsSingle : IsSingle pattern_cell "child"
child-IsSingle path other refs others h k = cc (child-at path refs h, child-at other others k)

captures-Binds_iff_example :
    (lookup "child" found ≡ some leaf) ↔ Binds pattern_cell whole "child" leaf
captures-Binds_iff_example =
    captures-Binds_iff eight ten pattern_cell whole found "child" leaf whole-captured child-IsSingle
