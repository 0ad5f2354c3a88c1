-- ===== src/Resolver/Format.antt =====
-- The integers that src/resolver.rs prints: `{:0width$}`, `{:0width$x}` and `{:0width$X}` of the
-- standard library on the types of its callers, `i32`, `u32` and `i64`, as bit patterns.
use Prim.Native.Char.{Char}
use tvm_linker.Prelude.{
  ℕ, zero, suc, ◌-◌, ◌/◌, ◌%◌, ◌^◌, List, [], ◌∷◌, String, true, false, ◌==◌, ltb, if◌then◌else◌,
  length, ℤ, pos, negsuc, Option, none, some,
}

pub data Kind : Type 0 where
  i32 u32 i64 : Kind

pub data Radix : Type 0 where
  decimal lower_hex upper_hex : Radix

abbrev pub base : Radix → ℕ
base decimal = 10
base lower_hex = 16
base upper_hex = 16

abbrev pub modulus : Kind → ℕ
modulus i32 = 2 ^ 32
modulus u32 = 2 ^ 32
modulus i64 = 2 ^ 64

-- The patterns of a signed type from here on are negative.
abbrev pub first_negative : Kind → ℕ
first_negative i32 = 2 ^ 31
first_negative u32 = 2 ^ 32
first_negative i64 = 2 ^ 63

-- `T::try_from` on an `isize`.
unfoldable pub try_from : Kind → ℤ → Option ℕ
try_from i32 (pos n) = if ltb n (2 ^ 31) then some n else none
try_from i32 (negsuc n) = if ltb n (2 ^ 31) then some (2 ^ 32 - 1 - n) else none
try_from u32 (pos n) = if ltb n (2 ^ 32) then some n else none
try_from u32 (negsuc n) = none
try_from i64 (pos n) = some n
try_from i64 (negsuc n) = some (2 ^ 64 - 1 - n)

-- Digits as values, the leading one first; a number of at most 64 bits has at most 64 of them.
unfoldable pub digits : Radix → ℕ → ℕ → List ℕ → List ℕ
digits r zero n acc = acc
digits r (suc fuel) n acc = elim (n / base r == 0) [
  | true ↦ n % base r ∷ acc
  | false ↦ digits r fuel (n / base r) (n % base r ∷ acc)
]

unfoldable pub zeros : ℕ → List ℕ → List ℕ
zeros zero ds = ds
zeros (suc n) ds = 0 ∷ zeros n ds

unfoldable pub padded : Radix → ℕ → ℕ → List ℕ
unfolding digits zeros
padded r width n = let ds = digits r 64 n [] in zeros (width - length ds) ds

abbrev char_at : ℕ → String → Char
char_at i String.[] = "?"
char_at zero (String.◌∷◌ c s) = c
char_at (suc i) (String.◌∷◌ c s) = char_at i s

abbrev pub digit_char : Radix → ℕ → Char
digit_char decimal d = char_at d "0123456789"
digit_char lower_hex d = char_at d "0123456789abcdef"
digit_char upper_hex d = char_at d "0123456789ABCDEF"

unfoldable pub spell : Radix → List ℕ → String
spell r [] = String.[]
spell r (d ∷ ds) = String.◌∷◌ (digit_char r d) (spell r ds)

-- A negative number has a sign in decimal, which counts for the width, and is its bit pattern in
-- hexadecimal.
unfoldable pub format : Radix → Kind → ℕ → ℕ → String
unfolding padded spell
format lower_hex kind width n = spell lower_hex (padded lower_hex width n)
format upper_hex kind width n = spell upper_hex (padded upper_hex width n)
format decimal kind width n =
    if ltb n (first_negative kind)
    then spell decimal (padded decimal width n)
    else String.◌∷◌ "-" (spell decimal (padded decimal (width - 1) (modulus kind - n)))
