-- ===== src/Parser/Values.antt =====
-- `ParseEngine::update_data` of src/parser.rs: the directives of a data object.
pub mod Sizes
use tvm_linker.Prelude.{
  ℕ, zero, suc, ◌+◌, ◌-◌, ◌%◌, ◌^◌, bit_and, Option, none, some, List, [], ◌∷◌, ◌++◌, String, Bool,
  true, false, ◌==◌, ltb, if◌then◌else◌, pos, codes, as_bytes, trim_start, parse_unsigned,
  string_key, length, map,
}
use mathlib.Core.List.{reverse}
use tvm_linker.Outcome.{
  Error, panic, comm_size, comm_align, bad_parameter, bad_value, size_too_small, size_mismatch,
  Result, ok, err, ◌>>=◌,
}
use tvm_linker.Parser.State.{Lines, DataValue, number}
use tvm_linker.Parser.Externals.{Externals}

-- `item_size` and `values`, which `update_data` changes in place.
pub record Filling : Type 0 where
  pub item_size : ℕ
  pub values : List DataValue

abbrev usize_limit : ℕ
usize_limit = 2 ^ 64

-- `str::trim`
trim : List ℕ → List ℕ
trim s = reverse (trim_start (reverse (trim_start s)))

abbrev codes_eq : List ℕ → List ℕ → Bool
codes_eq [] [] = true
codes_eq (c ∷ s) (d ∷ t) = if c == d then codes_eq s t else false
codes_eq _ _ = false

unfoldable pub zeros : ℕ → List DataValue
zeros zero = []
zeros (suc n) = number (pos 0) 1 ∷ zeros n

-- `(size + (align - 1)) & !(align - 1)` on usize, where the sum wraps.
unfoldable pub align_up : ℕ → ℕ → ℕ
align_up n align = bit_and ((n + (align - 1)) % usize_limit) (usize_limit - 1 - (align - 1))

parse_usize : Error → String → Result ℕ
parse_usize e s = elim (parse_unsigned usize_limit (codes s)) [ none ↦ err e | some n ↦ ok n ]

-- What one directive adds: the length that it takes from the size, its values, and the new size
-- where it sets one (`.comm`).
pub record Piece : Type 0 where
  pub value_len : ℕ
  pub added : List DataValue
  pub resized : Option ℕ

unfoldable pub comm_values : ℕ → ℕ → Result Piece
comm_values size_bytes align =
    if size_bytes == 0
    then err comm_size
    else if align == 0
    then err comm_align
    else let n = align_up size_bytes align in
      ok (record { value_len = n; added = zeros n; resized = some n })

unfoldable pub comm_piece : String × String × String → Result Piece
unfolding parse_usize
comm_piece (symbol, size_text, align_text) = do
  size_bytes ← parse_usize comm_size size_text
  align ← parse_usize comm_align align_text
  comm_values size_bytes align

char_value : ℕ → DataValue
char_value c = number (pos c) 1

unfoldable pub asciz_piece : String → Piece
unfolding char_value
asciz_piece s =
    let bytes = as_bytes s ++ 0 ∷ [] in
    record { value_len = length (as_bytes s) + 1; added = map char_value bytes; resized = none }

value_length : String → Option ℕ
value_length pname =
    if string_key.beq pname "byte"
    then some 1
    else if string_key.beq pname "long"
    then some 4
    else if string_key.beq pname "short"
    then some 2
    else if string_key.beq pname "quad"
    then some 8
    else none

module _ (x : Externals) where
  unfoldable pub param_piece : String × String → Result Piece
  unfolding value_length trim
  param_piece (pname, value) = elim (value_length pname) [
    | none ↦ err bad_parameter
    | some n ↦ elim (x.parse_integer (trim (codes value))) [
      | none ↦ err bad_value
      | some i ↦ ok (record { value_len = n; added = number i n ∷ []; resized = none })
    ]
  ]

  abbrev pub idle : Piece
  idle = record { value_len = 0; added = []; resized = none }

  unfoldable pub piece : String → Result Piece
  unfolding trim
  piece text = elim (x.comm text) [
    | some cap ↦ comm_piece cap
    | none ↦ if codes_eq (trim (codes text)) (codes ".bss") then ok idle else elim (x.asciz text) [
      | some s ↦ ok (asciz_piece s)
      | none ↦ elim (x.param text) [ some cap ↦ param_piece cap | none ↦ ok idle ]
    ]
  ]

  -- The end of the loop's body: the checked subtraction from the size.
  unfoldable pub take_piece : Filling → Piece → Result Filling
  take_piece s p =
      let size : ℕ = elim p.resized [ none ↦ s.item_size | some n ↦ n ] in
      if ltb size p.value_len
      then err size_too_small
      else ok (record { item_size = size - p.value_len; values = s.values ++ p.added })

  unfoldable pub fill : Lines → Filling → Result Filling
  fill [] s = ok s
  fill (l ∷ body) s = do p ← piece l.text; s' ← take_piece s p; fill body s'

  unfoldable pub update_data : Lines → Filling → Result Filling
  unfolding fill
  update_data body s = do s' ← fill body s; if s'.item_size == 0 then ok s' else err size_mismatch
