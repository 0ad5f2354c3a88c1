-- ===== src/Disasm/Operands/Complement.antt =====
-- The magnitude that `bigint` of src/disasm/loader.rs gives to a negative number.
use tvm_linker.Prelude.{
  ℕ, ◌+◌, ◌-◌, ◌*◌, ◌%◌, ◌^◌, ◌<◌, ◌==◌, List, [], ◌∷◌, Bool, true, false, if◌then◌else◌, ◌≡◌,
  Bool-cases, inl, inr, arith, nat_beq_iff,
}
use tvm_linker.Disasm.Operands.{twos_complement}

-- The number of some digits, the lowest first, and the least number with more of them.
unfoldable pub number : List ℕ → ℕ
number [] = 0
number (d ∷ digits) = d + 2 ^ 32 * number digits

unfoldable pub wide : List ℕ → ℕ
wide [] = 1
wide (d ∷ digits) = 2 ^ 32 * wide digits

unfoldable pub are_zero : List ℕ → Bool
are_zero [] = true
are_zero (d ∷ digits) = if d == 0 then are_zero digits else false

abbrev pub AreDigits : List ℕ → Type 0
AreDigits [] = Unit {0}
AreDigits (d ∷ digits) = (d < 2 ^ 32) × AreDigits digits

complement_false :
    (digits : List ℕ)
    → AreDigits digits
    → number (twos_complement false digits) + number digits + 1 ≡ wide digits
unfolding twos_complement number wide
complement_false [] h = omega arith
complement_false (d ∷ digits) (lt, h) =
    let later = complement_false digits h in omega (arith, lt, later)

-- The lowest digit of the complement.
abbrev low : ℕ → ℕ
low d = (2 ^ 32 - 1 - d + 1) % 2 ^ 32

low-zero : (d : ℕ) → (d == 0) ≡ true → (low d == 0) ≡ true
low-zero d h = ground arith

low-more : (d : ℕ) → d < 2 ^ 32 → (d == 0) ≡ false → (low d == 0) ≡ false
low-more d lt h = ground arith

-- The two's complement of a number in digits of 32 bits makes up the whole with the number, that is,
-- the power of two behind its digits, unless the number is 0, which stays.
pub twos_complement_lem :
    (digits : List ℕ)
    → AreDigits digits
    → number (twos_complement true digits) + number digits
      ≡ (if are_zero digits then 0 else wide digits)
unfolding twos_complement number wide are_zero
twos_complement_lem [] h = omega arith
twos_complement_lem (d ∷ digits) (lt, h) = elim (Bool-cases (d == 0)) [
  | inl none_here ↦
      let later = twos_complement_lem digits h in
      let this : d ≡ 0 = (nat_beq_iff d 0).0 none_here in
      elim (Bool-cases (are_zero digits)) [
        | inl zeros ↦
            let sum = rw zeros at later in
            rw (low-zero d none_here, none_here, zeros) (omega (arith, this, sum))
        | inr others ↦
            let sum = rw others at later in
            rw (low-zero d none_here, none_here, others) (omega (arith, this, sum))
      ]
  | inr some_here ↦
      let later = complement_false digits h in
      let this = low-more d lt some_here in rw (this, some_here) (ground arith)
]
