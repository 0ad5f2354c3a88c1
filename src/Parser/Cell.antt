-- ===== src/Parser/Cell.antt =====
-- A cell as `encode_computed_cell` of src/parser.rs reads it: the text of its data, as
-- `to_hex_string` gives it, and its references.
use tvm_linker.Prelude.{String}

mutual
  pub data Cell : Type 0 where
    cell : (hex : String) (references : Cells) → Cell

  pub data Cells : Type 0 where
    no_cells : Cells
    more_cells : Cell → Cells → Cells
