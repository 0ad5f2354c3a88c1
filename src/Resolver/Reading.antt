-- ===== src/Resolver/Reading.antt =====
-- Texts of digits, and the numbers that they stand for.
use Prim.Native.Char.{code}
use tvm_linker.Prelude.{
  ◌≡◌, refl, ap, inl, inr, ℕ, zero, suc, ◌+◌, ◌-◌, ◌*◌, ◌<◌, List, Option, none, some, [], ◌∷◌,
  String, Bool, true, false, ◌==◌, leb, ◌&&◌, if◌then◌else◌, arith, Bool-cases, nat_beq_iff,
}
use tvm_linker.Resolver.Format.{
  Kind, Radix, decimal, lower_hex, upper_hex, base, modulus, digit_char, spell,
}

-- The value of a digit's character; the letters of a hexadecimal digit have one case.
unfoldable pub letter_of : Radix → ℕ → Option ℕ
letter_of decimal c = none
letter_of lower_hex c = if leb b'a' c && leb c b'f' then some (c - b'a' + 10) else none
letter_of upper_hex c = if leb b'A' c && leb c b'F' then some (c - b'A' + 10) else none

unfoldable pub digit_of : Radix → ℕ → Option ℕ
unfolding letter_of
digit_of r c = if leb b'0' c && leb c b'9' then some (c - b'0') else letter_of r c

unfoldable pub read_digits : Radix → ℕ → String → Option ℕ
unfolding digit_of
read_digits r acc String.[] = some acc
read_digits r acc (String.◌∷◌ c s) = elim (digit_of r (code c)) [
  | none ↦ none
  | some d ↦ read_digits r (acc * base r + d) s
]

unfoldable pub negated : Kind → Option ℕ → Option ℕ
negated kind none = none
negated kind (some n) = some (modulus kind - n)

-- The bit pattern that a text stands for in a radix, if it does; only a decimal number has a sign.
unfoldable pub read : Radix → Kind → String → Option ℕ
unfolding read_digits negated
read r kind String.[] = none
read r kind (String.◌∷◌ c s) =
    if code c == b'-' then negated kind (read_digits r 0 s) else read_digits r 0 (String.◌∷◌ c s)

unfoldable pub value : Radix → ℕ → List ℕ → ℕ
value r acc [] = acc
value r acc (d ∷ ds) = value r (acc * base r + d) ds

all_below : ℕ → (ℕ → Bool) → Bool
all_below zero p = true
all_below (suc n) p = if p n then all_below n p else false

all_below_sound : (n : ℕ) (p : ℕ → Bool) (i : ℕ) → all_below n p ≡ true → i < n → p i ≡ true
unfolding all_below
all_below_sound zero p i t lt = absurd (omega (arith, lt))
all_below_sound (suc n) p i t lt = ground (arith, all_below_sound n p i)

is_some_of : ℕ → Option ℕ → Bool
is_some_of d none = false
is_some_of d (some v) = v == d

is_some_of-eq : (d : ℕ) (v : Option ℕ) → is_some_of d v ≡ true → v ≡ some d
unfolding is_some_of
is_some_of-eq d none h = cc h
is_some_of-eq d (some v) h = ap some ((nat_beq_iff v d).0 h)

-- A digit's character is no sign and has the digit's value.
is_char_of : Radix → ℕ → Bool
unfolding digit_of letter_of is_some_of
is_char_of r d =
    if is_some_of d (digit_of r (code (digit_char r d)))
    then (if code (digit_char r d) == b'-' then false else true)
    else false

chars : (r : Radix) → all_below (base r) (is_char_of r) ≡ true
unfolding all_below is_char_of is_some_of digit_of letter_of
chars decimal = refl
chars lower_hex = refl
chars upper_hex = refl

is_char_of-eq :
    (r : Radix) (d : ℕ)
    → is_char_of r d ≡ true
    → (digit_of r (code (digit_char r d)) ≡ some d) × ((code (digit_char r d) == b'-') ≡ false)
unfolding is_char_of
is_char_of-eq r d h = elim (Bool-cases (is_some_of d (digit_of r (code (digit_char r d))))) [
  | inl same ↦ elim (Bool-cases (code (digit_char r d) == b'-')) [
    | inl minus ↦ cc (rw (same, minus) at h)
    | inr other ↦ (is_some_of-eq d (digit_of r (code (digit_char r d))) same, other)
  ]
  | inr other ↦ cc (rw other at h)
]

pub digit_char_lem :
    (r : Radix) (d : ℕ)
    → d < base r
    → (digit_of r (code (digit_char r d)) ≡ some d) × ((code (digit_char r d) == b'-') ≡ false)
digit_char_lem r d lt = is_char_of-eq r d (all_below_sound (base r) (is_char_of r) d (chars r) lt)

abbrev pub AreDigits : Radix → List ℕ → Type 0
AreDigits r [] = Unit {0}
AreDigits r (d ∷ ds) = (d < base r) × AreDigits r ds

pub read_digits-spell :
    (r : Radix) (acc : ℕ) (ds : List ℕ)
    → AreDigits r ds
    → read_digits r acc (spell r ds) ≡ some (value r acc ds)
unfolding read_digits spell value
read_digits-spell r acc [] h = refl
read_digits-spell r acc (d ∷ ds) h =
    rw ((digit_char_lem r d h.0).0, read_digits) (read_digits-spell r (acc * base r + d) ds h.1)
