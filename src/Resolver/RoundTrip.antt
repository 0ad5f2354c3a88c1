-- ===== src/Resolver/RoundTrip.antt =====
-- Reading back the digits that src/resolver.rs prints, and their number.
use tvm_linker.Prelude.{
  ◌≡◌, refl, sym, ap, ◌∙◌, inl, inr, ℕ, zero, suc, ◌+◌, ◌-◌, ◌*◌, ◌/◌, ◌%◌, ◌<◌, ◌≤◌, List, some,
  [], ◌∷◌, String, false, ◌==◌, ltb, length, arith, Bool-cases, nat_beq_iff,
}
use tvm_linker.Resolver.{text_length}
use tvm_linker.Resolver.Format.{
  Kind, i32, u32, i64, Radix, decimal, lower_hex, upper_hex, base, modulus, first_negative, digits,
  zeros, padded, spell, format,
}
use tvm_linker.Resolver.Reading.{
  read_digits, negated, read, value, digit_char_lem, AreDigits, read_digits-spell,
}

mod-lt-base : (r : Radix) (n : ℕ) → n % base r < base r
mod-lt-base decimal n = omega arith
mod-lt-base lower_hex n = omega arith
mod-lt-base upper_hex n = omega arith

div-base : (r : Radix) (n : ℕ) → n / base r * base r + n % base r ≡ n
div-base decimal n = omega arith
div-base lower_hex n = omega arith
div-base upper_hex n = omega arith

digits-AreDigits :
    (r : Radix) (fuel n : ℕ) (acc : List ℕ) → AreDigits r acc → AreDigits r (digits r fuel n acc)
unfolding digits
digits-AreDigits r zero n acc h = h
digits-AreDigits r (suc fuel) n acc h = elim (Bool-cases (n / base r == 0)) [
  | inl done ↦ rw (done, digits) (mod-lt-base r n, h)
  | inr more ↦
      rw (more, digits)
        (digits-AreDigits r fuel (n / base r) (n % base r ∷ acc) (mod-lt-base r n, h))
]

-- The numbers that have at most so many digits are below this.
abbrev reach : Radix → ℕ → ℕ
reach r zero = 1
reach r (suc fuel) = reach r fuel * base r

div-base-lt : (r : Radix) (k n : ℕ) → n < k * base r → n / base r < k
div-base-lt decimal k n lt = omega arith
div-base-lt lower_hex k n lt = omega arith
div-base-lt upper_hex k n lt = omega arith

value-digits :
    (r : Radix) (fuel n : ℕ) (acc : List ℕ)
    → n < reach r fuel
    → value r 0 (digits r fuel n acc) ≡ value r n acc
unfolding digits value
value-digits r zero n acc lt =
    let none_left : 0 ≡ n = omega (arith, lt) in ap (λ k. value r k acc) none_left
value-digits r (suc fuel) n acc lt = elim (Bool-cases (n / base r == 0)) [
  | inl done ↦
      let top : n / base r ≡ 0 = (nat_beq_iff _ 0).0 done in
      rw (done, digits)
        (ap (λ k. value r k acc) (ap (λ q. q * base r + n % base r) (sym top) ∙ div-base r n))
  | inr more ↦
      rw (more, digits)
        (value-digits r fuel (n / base r) (n % base r ∷ acc) (div-base-lt r (reach r fuel) n lt)
          ∙ ap (λ k. value r k acc) (div-base r n))
]

value-zeros : (r : Radix) (n : ℕ) (ds : List ℕ) → value r 0 (zeros n ds) ≡ value r 0 ds
unfolding value zeros
value-zeros r zero ds = refl
value-zeros decimal (suc n) ds = value-zeros decimal n ds
value-zeros lower_hex (suc n) ds = value-zeros lower_hex n ds
value-zeros upper_hex (suc n) ds = value-zeros upper_hex n ds

zeros-AreDigits : (r : Radix) (n : ℕ) (ds : List ℕ) → AreDigits r ds → AreDigits r (zeros n ds)
unfolding zeros
zeros-AreDigits r zero ds h = h
zeros-AreDigits decimal (suc n) ds h = (omega arith, zeros-AreDigits decimal n ds h)
zeros-AreDigits lower_hex (suc n) ds h = (omega arith, zeros-AreDigits lower_hex n ds h)
zeros-AreDigits upper_hex (suc n) ds h = (omega arith, zeros-AreDigits upper_hex n ds h)

modulus-le-reach : (r : Radix) (kind : Kind) (n : ℕ) → n < modulus kind → n < reach r 64
modulus-le-reach decimal i32 n lt = omega arith
modulus-le-reach decimal u32 n lt = omega arith
modulus-le-reach decimal i64 n lt = omega arith
modulus-le-reach lower_hex i32 n lt = omega arith
modulus-le-reach lower_hex u32 n lt = omega arith
modulus-le-reach lower_hex i64 n lt = omega arith
modulus-le-reach upper_hex i32 n lt = omega arith
modulus-le-reach upper_hex u32 n lt = omega arith
modulus-le-reach upper_hex i64 n lt = omega arith

padded-AreDigits : (r : Radix) (width n : ℕ) → AreDigits r (padded r width n)
unfolding padded
padded-AreDigits r width n = zeros-AreDigits r _ (digits r 64 n []) (digits-AreDigits r 64 n [] tt)

read_digits-padded :
    (r : Radix) (width n : ℕ)
    → n < reach r 64
    → read_digits r 0 (spell r (padded r width n)) ≡ some n
unfolding padded value
read_digits-padded r width n lt =
    read_digits-spell r 0 (padded r width n) (padded-AreDigits r width n)
    ∙ ap some (
        value-zeros r (width - length (digits r 64 n [])) (digits r 64 n [])
        ∙ value-digits r 64 n [] lt)

length-zeros : (n : ℕ) (ds : List ℕ) → length (zeros n ds) ≡ n + length ds
unfolding zeros
length-zeros zero ds = omega arith
length-zeros (suc n) ds = let later = length-zeros n ds in omega (arith, later)

length-digits : (r : Radix) (fuel n : ℕ) (acc : List ℕ) → length acc ≤ length (digits r fuel n acc)
unfolding digits
length-digits r zero n acc = omega arith
length-digits r (suc fuel) n acc = elim (Bool-cases (n / base r == 0)) [
  | inl done ↦ rw (done, digits) (omega arith)
  | inr more ↦
      rw (more, digits)
        (let later = length-digits r fuel (n / base r) (n % base r ∷ acc) in omega (arith, later))
]

-- There is a digit.
digits-pos : (r : Radix) (fuel n : ℕ) → 0 < length (digits r (suc fuel) n [])
unfolding digits
digits-pos r fuel n = elim (Bool-cases (n / base r == 0)) [
  | inl done ↦ rw (done, digits) (omega arith)
  | inr more ↦
      rw (more, digits)
        (let later = length-digits r fuel (n / base r) (n % base r ∷ []) in omega (arith, later))
]

padded-lt :
    (r : Radix) (width n : ℕ)
    → (0 < length (padded r width n)) × (width ≤ length (padded r width n))
unfolding padded
padded-lt r width n =
    let whole = length-zeros (width - length (digits r 64 n [])) (digits r 64 n []) in
    let one = digits-pos r 63 n in (omega (arith, whole, one), omega (arith, whole, one))

text_length-spell : (r : Radix) (ds : List ℕ) → text_length (spell r ds) ≡ length ds
unfolding spell
text_length-spell r [] = refl
text_length-spell r (d ∷ ds) = ap suc (text_length-spell r ds)

-- A text of digits has no sign.
read-spell :
    (r : Radix) (kind : Kind) (ds : List ℕ)
    → AreDigits r ds
    → 0 < length ds
    → read r kind (spell r ds) ≡ read_digits r 0 (spell r ds)
unfolding read read_digits spell
read-spell r kind [] h lt = absurd (omega (arith, lt))
read-spell r kind (d ∷ ds) h lt = rw ((digit_char_lem r d h.0).1, read) refl

negative_bounds :
    (kind : Kind) (n : ℕ)
    → n < modulus kind
    → ltb n (first_negative kind) ≡ false
    → (modulus kind - n < modulus kind) × (modulus kind - (modulus kind - n) ≡ n)
negative_bounds i32 n lt negative = ground arith
negative_bounds u32 n lt negative = ground arith
negative_bounds i64 n lt negative = ground arith

read-minus :
    (kind : Kind) (width n : ℕ)
    → n < modulus kind
    → ltb n (first_negative kind) ≡ false
    → read decimal kind (String.◌∷◌ "-" (spell decimal (padded decimal width (modulus kind - n))))
      ≡ some n
unfolding read negated
read-minus kind width n lt negative =
    ap (negated kind) (
      read_digits-padded decimal width (modulus kind - n)
        (modulus-le-reach decimal kind (modulus kind - n) (negative_bounds kind n lt negative).0))
    ∙ ap some (negative_bounds kind n lt negative).1

read-padded :
    (r : Radix) (kind : Kind) (width n : ℕ)
    → n < modulus kind
    → read r kind (spell r (padded r width n)) ≡ some n
read-padded r kind width n lt =
    read-spell r kind (padded r width n) (padded-AreDigits r width n) (padded-lt r width n).0
    ∙ read_digits-padded r width n (modulus-le-reach r kind n lt)

-- A number below the modulus of its type, printed in any radix and at any width, reads back as the
-- same bit pattern.
pub read-format :
    (r : Radix) (kind : Kind) (width n : ℕ)
    → n < modulus kind
    → read r kind (format r kind width n) ≡ some n
unfolding format
read-format lower_hex kind width n lt = read-padded lower_hex kind width n lt
read-format upper_hex kind width n lt = read-padded upper_hex kind width n lt
read-format decimal kind width n lt = elim (Bool-cases (ltb n (first_negative kind))) [
  | inl plain ↦ rw (plain, format) (read-padded decimal kind width n lt)
  | inr negative ↦ rw (negative, format) (read-minus kind (width - 1) n lt negative)
]

wide : (r : Radix) (width n : ℕ) → width ≤ text_length (spell r (padded r width n))
wide r width n =
    let same = text_length-spell r (padded r width n) in
    let long = (padded-lt r width n).1 in omega (arith, same, long)

-- It is at least as wide as asked for.
pub format-wide :
    (r : Radix) (kind : Kind) (width n : ℕ) → width ≤ text_length (format r kind width n)
unfolding format
format-wide lower_hex kind width n = wide lower_hex width n
format-wide upper_hex kind width n = wide upper_hex width n
format-wide decimal kind width n = elim (Bool-cases (ltb n (first_negative kind))) [
  | inl plain ↦ rw (plain, format) (wide decimal width n)
  | inr negative ↦
      rw (negative, format)
        (let later = wide decimal (width - 1) (modulus kind - n) in omega (arith, later))
]
