-- ===== src/Prelude/Int.antt =====
-- Signed integers, and the decimal parsers of the standard library.
use Prim.Native.Nat.{ℕ, zero, suc, ◌+◌, ◌-◌, ◌*◌}
use mathlib.Core.Path.{◌≡◌}
use mathlib.Core.Logic.{◌↔◌}
use mathlib.Core.Bool.{Bool, true, false, ◌&&◌}
use mathlib.Core.Option.{Option, none, some}
use mathlib.Core.List.{List, [], ◌∷◌}
use native.Mathlib.Omega.{arith}
use tvm_linker.Prelude.Tests.{if◌then◌else◌, ltb, leb, ◌==◌}
use tvm_linker.Prelude.Maps.{Key}

-- `negsuc n` is -(n + 1).
pub data ℤ : Type 0 where
  pos : ℕ → ℤ
  negsuc : ℕ → ℤ

abbrev pub int_beq : ℤ → ℤ → Bool
int_beq (pos a) (pos b) = a == b
int_beq (negsuc a) (negsuc b) = a == b
int_beq _ _ = false

abbrev pub int_lt : ℤ → ℤ → Bool
int_lt (pos a) (pos b) = ltb a b
int_lt (pos a) (negsuc b) = false
int_lt (negsuc a) (pos b) = true
int_lt (negsuc a) (negsuc b) = ltb b a

pub int_beq_iff : (a b : ℤ) → (int_beq a b ≡ true) ↔ (a ≡ b)
int_beq_iff (pos a) (pos b) = ground arith
int_beq_iff (negsuc a) (negsuc b) = ground arith
int_beq_iff (pos a) (negsuc b) = ground arith
int_beq_iff (negsuc a) (pos b) = ground arith

instance abbrev pub int_key : Key ℤ
int_key = record { beq = int_beq; beq_iff = int_beq_iff; before = int_lt }

-- Decimal digits; a number is refused as soon as it reaches `limit`.
abbrev pub parse_digits : (limit acc : ℕ) → List ℕ → Option ℕ
parse_digits limit acc [] = if ltb acc limit then some acc else none
parse_digits limit acc (c ∷ s) =
    let rest = parse_digits limit (acc * 10 + (c - b'0')) s in
    if leb b'0' c && leb c b'9' then rest else none

-- At least one digit.
abbrev pub parse_digits1 : ℕ → List ℕ → Option ℕ
parse_digits1 limit [] = none
parse_digits1 limit (c ∷ s) = parse_digits limit 0 (c ∷ s)

-- `str::parse` for an unsigned type of the values below `limit`, and for the values of a signed
-- type that carry no minus.
abbrev pub parse_unsigned : ℕ → List ℕ → Option ℕ
parse_unsigned limit [] = none
parse_unsigned limit (c ∷ s) =
    if c == b'+' then parse_digits1 limit s else parse_digits limit 0 (c ∷ s)

abbrev pub negate : ℕ → ℤ
negate zero = pos 0
negate (suc n) = negsuc n

abbrev pub parse_minus : ℕ → List ℕ → Option ℤ
parse_minus limit s = elim (parse_digits1 (limit + 1) s) [ none ↦ none | some n ↦ some (negate n) ]

-- `str::parse` for a signed type of the values from -`limit` on and below `limit`.
abbrev pub parse_signed : ℕ → List ℕ → Option ℤ
parse_signed limit [] = none
parse_signed limit (c ∷ s) =
    if c == b'-'
    then parse_minus limit s
    else elim (parse_unsigned limit (c ∷ s)) [ none ↦ none | some n ↦ some (pos n) ]
