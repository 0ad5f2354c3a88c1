-- ===== src/Resolver/Numbers.antt =====
-- The numbers that `resolve_name` of src/resolver.rs puts in the place of a name.
use tvm_linker.Prelude.{
  ℕ, ◌+◌, ◌%◌, ◌^◌, ◌<◌, ◌≤◌, String, Option, none, some, ℤ, ◌≡◌, ◌≢◌, refl, ap, arith, inl, inr,
  codes, string_key, parse_unsigned, Bool-cases,
}
use tvm_linker.Outcome.{ok}
use tvm_linker.Parser.Externals.{NameCapture}
use tvm_linker.Resolver.Format.{
  Kind, i32, u32, i64, Radix, decimal, lower_hex, upper_hex, modulus, try_from, format,
}
use tvm_linker.Resolver.Reading.{read}
use tvm_linker.Resolver.RoundTrip.{read-format, format-wide}
use tvm_linker.Resolver.{text_length, width_text, radix_of, number_text}

-- The radix that a format letter asks for.
abbrev pub Asks : Option String → Radix → Type 0
Asks letter decimal = (letter ≢ some "x") × (letter ≢ some "X")
Asks letter lower_hex = letter ≡ some "x"
Asks letter upper_hex = letter ≡ some "X"

radix_of-other :
    (letter : Option String) → letter ≢ some "x" → letter ≢ some "X" → radix_of letter ≡ decimal
unfolding radix_of
radix_of-other none no_x no_upper = refl
radix_of-other (some f) no_x no_upper = elim (Bool-cases (string_key.beq f "x")) [
  | inl lower ↦ absurd (no_x (ap some ((string_key.beq_iff f "x").0 lower)))
  | inr more ↦ elim (Bool-cases (string_key.beq f "X")) [
    | inl upper ↦ absurd (no_upper (ap some ((string_key.beq_iff f "X").0 upper)))
    | inr other ↦ rw (more, other, radix_of) refl
  ]
]

radix_of_lem : (letter : Option String) (r : Radix) → Asks letter r → radix_of letter ≡ r
unfolding radix_of
radix_of_lem letter decimal (no_x, no_upper) = radix_of-other letter no_x no_upper
radix_of_lem letter lower_hex h = ap radix_of h
radix_of_lem letter upper_hex h = ap radix_of h

mod-lt : (kind : Kind) (n : ℕ) → n % modulus kind < modulus kind
mod-lt i32 n = omega arith
mod-lt u32 n = omega arith
mod-lt i64 n = omega arith

-- Where the offset fits the type of the number and the width of the match is a number, the name is
-- replaced by a text that reads, in the radix and the case of the format letter, as the sum of number
-- and offset in the type's bits, and that is at least as long as the width.
pub number_text-read :
    (kind : Kind) (cap : NameCapture) (offset : ℤ) (found add width : ℕ) (r : Radix)
    → try_from kind offset ≡ some add
    → parse_unsigned (2 ^ 64) (codes (width_text cap.len)) ≡ some width
    → Asks cap.fmt r
    → (text : String) × ((number_text kind cap offset found ≡ ok text)
        × ((read r kind text ≡ some ((found + add) % modulus kind)) × (width ≤ text_length text)))
unfolding number_text
number_text-read kind cap offset found add width r fits wide asked =
    let n = (found + add) % modulus kind in
    (
      format r kind width n,
      (
        rw (fits, wide, radix_of_lem cap.fmt r asked, number_text) refl,
        (read-format r kind width n (mod-lt kind (found + add)), format-wide r kind width n),
      ),
    )
