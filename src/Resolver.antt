-- ===== src/Resolver.antt =====
-- src/resolver.rs: the names between dollar signs in a line.
pub mod Format
pub mod Reading
pub mod RoundTrip
pub mod Numbers
pub mod State
pub mod Found
pub mod Missing
use tvm_linker.Prelude.{
  ℕ, zero, suc, ◌+◌, ◌-◌, ◌^◌, ◌%◌, List, [], ◌∷◌, String, Bool, true, false, not, ◌&&◌, ◌||◌, ◌==◌,
  leb, if◌then◌else◌, Option, none, some, ℤ, pos, codes, str_append, ends_with, string_key, negate,
  parse_unsigned,
}
use Prim.Native.Char.{Char, code}
use tvm_linker.Outcome.{
  Error, panic, no_object_name, name_not_found, offset_too_big, bad_width, Result, ok, err, ◌>>=◌,
  and_then,
}
use tvm_linker.Parser.State.{Line}
use tvm_linker.Parser.Externals.{NameCapture, Externals}
use tvm_linker.Resolver.Format.{
  Kind, Radix, decimal, lower_hex, upper_hex, modulus, try_from, format,
}

abbrev pub text_length : String → ℕ
text_length String.[] = 0
text_length (String.◌∷◌ c s) = suc (text_length s)

abbrev pub take_text : ℕ → String → String
take_text n String.[] = String.[]
take_text zero (String.◌∷◌ c s) = String.[]
take_text (suc n) (String.◌∷◌ c s) = String.◌∷◌ c (take_text n s)

abbrev drop_text : ℕ → String → String
drop_text n String.[] = String.[]
drop_text zero (String.◌∷◌ c s) = String.◌∷◌ c s
drop_text (suc n) (String.◌∷◌ c s) = drop_text n s

-- `str::get(a..b)`
unfoldable pub get_range : ℕ → ℕ → String → Option String
get_range a b s =
    if leb a b && leb b (text_length s) then some (take_text (b - a) (drop_text a s)) else none

-- `text.split_at(text.find(';').unwrap_or(text.len()))`
unfoldable pub split_comment : String → String × String
split_comment String.[] = (String.[], String.[])
split_comment (String.◌∷◌ c s) =
    if code c == b';'
    then (String.[], String.◌∷◌ c s)
    else (String.◌∷◌ c ((split_comment s).0), (split_comment s).1)

unfoldable pub has_dollar : String → Bool
has_dollar String.[] = false
has_dollar (String.◌∷◌ c s) = (code c == b'$') || has_dollar s

-- The offset of a match: `off_str.get(1..).unwrap().parse::<isize>().unwrap()` and the sign.
unfoldable pub offset_of : Option String → Result ℤ
offset_of none = ok (pos 0)
offset_of (some String.[]) = err panic
offset_of (some (String.◌∷◌ c digits)) = elim (parse_unsigned (2 ^ 63) (codes digits)) [
  | none ↦ err panic
  | some n ↦ ok (if code c == b'-' then negate n else pos n)
]

unfoldable pub width_text : Option String → String
width_text none = "0"
width_text (some String.[]) = "0"
width_text (some (String.◌∷◌ c s)) = String.◌∷◌ c s

unfoldable pub radix_of : Option String → Radix
radix_of none = decimal
radix_of (some f) =
    if string_key.beq f "x"
    then lower_hex
    else (if string_key.beq f "X" then upper_hex else decimal)

-- What the loop does with a number that `get` has found: `id += offset`, and its text.
unfoldable pub number_text : Kind → NameCapture → ℤ → ℕ → Result String
unfolding width_text radix_of
number_text kind cap offset found = elim (try_from kind offset) [
  | none ↦ err offset_too_big
  | some add ↦ elim (parse_unsigned (2 ^ 64) (codes (width_text cap.len))) [
    | none ↦ err bad_width
    | some width ↦ ok (format (radix_of cap.fmt) kind width ((found + add) % modulus kind))
  ]
]

unfoldable pub found_text : Kind → NameCapture → ℤ → Option ℕ → Result String
found_text kind cap offset none = err name_not_found
found_text kind cap offset (some found) = number_text kind cap offset found

-- `res_str` and `end`.
abbrev pub Progress : Type 0
Progress = String × ℕ

-- `get` may change a state `S`, which outlives an error.
module _ {S : Type 0} (kind : Kind) (get : String → S → Option ℕ × S) where
  -- What one match adds behind `before`, the text between the last match and this one.
  unfoldable pub resolve_found : NameCapture → String → ℤ → String → Option ℕ → Result Progress
  unfolding found_text
  resolve_found cap res offset before found = found_text kind cap offset found >>= λ id_str.
      ok (str_append (str_append res before) id_str, cap.stop)

  unfoldable pub resolve_id : NameCapture → ℕ × String → String → Progress → S → Result Progress × S
  resolve_id cap (begin, name) text (res, stop) s = elim (get_range stop (begin - 1) text) [
    | none ↦ (err panic, s)
    | some before ↦ elim (offset_of cap.offset) [
      | err e ↦ (err e, s)
      | ok offset ↦ (resolve_found cap res offset before ((get name s).0), (get name s).1)
    ]
  ]

  unfoldable pub resolve_capture : NameCapture → String → Progress → S → Result Progress × S
  unfolding resolve_id
  resolve_capture cap text p s = elim cap.id [
    | none ↦ (err no_object_name, s)
    | some id ↦ resolve_id cap id text p s
  ]

  unfoldable pub resolve_captures : List NameCapture → String → Progress → S → Result Progress × S
  resolve_captures [] text p s = (ok p, s)
  resolve_captures (cap ∷ caps) text p s =
      and_then (resolve_capture cap text p s) (resolve_captures caps text)

-- What follows the loop: the rest of the text, and the comment behind a space.
unfoldable pub finish_text : String → String → Progress → Result String
finish_text text comment (res, stop) = elim (get_range stop (text_length text) text) [
  | none ↦ err panic
  | some rest ↦
      let res' = str_append res rest in
      ok (
        str_append
          (if not (ends_with res' " ") && leb 1 (text_length comment)
            then str_append res' " "
            else res')
          comment)
]

module _ (x : Externals) {S : Type 0} (kind : Kind) (get : String → S → Option ℕ × S) where
  unfoldable pub renamed : Line → Progress → Result Line
  renamed line p = do
    res_str ← finish_text (split_comment line.text).0 (split_comment line.text).1 p
    ok (x.new_line res_str line.pos.filename line.pos.line)

  unfoldable pub resolve_name : Line → S → Result Line × S
  resolve_name line s =
      let text = (split_comment line.text).0 in
      if has_dollar text
      then and_then (resolve_captures kind get (x.names text) text ("", 0) s)
          (λ p s'. (renamed line p, s'))
      else (ok line, s)
