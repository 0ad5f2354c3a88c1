-- ===== src/Outcome.antt =====
-- The errors of the linker and the `Result` that carries them. An `unwrap` of nothing, which stops
-- the process, is the error `panic`; a fuel that ran out is `out_of_fuel`.
use mathlib.Core.Path.{◌≡◌, refl}
use mathlib.Core.Logic.{◌⊎◌, inl, inr}
use mathlib.Core.Bool.{Bool, true, false}
use tvm_linker.Prelude.{if◌then◌else◌}

pub data Error : Type 0 where
  panic out_of_fuel : Error
  read_failed no_definitions : Error
  unknown_pragma bad_global_base bad_persistent_base bad_alias_id : Error
  another_selector duplicate_function duplicate_internal duplicate_macro no_alias : Error
  comm_size comm_align bad_parameter bad_value size_too_small size_mismatch : Error
  macro_cycle : Error
  no_object_name name_not_found offset_too_big bad_width : Error
  macro_not_found compute_failed bad_abi : Error
  no_byte no_data bad_instruction too_many_references wrong_shape : Error

pub data Result {ℓ} (A : Type ℓ) : Type ℓ where
  err : (why : Error) → Result A
  ok : (value : A) → Result A

pub ok-injective {ℓ} : {A : Type ℓ} {a b : A} → ok a ≡ ok b → a ≡ b
ok-injective h = cc

pub Result-cases {ℓ} :
    {A : Type ℓ} (r : Result A) → ((why : Error) × (r ≡ err why)) ⊎ ((a : A) × (r ≡ ok a))
Result-cases (err why) = inl (why, refl)
Result-cases (ok a) = inr (a, refl)

-- `?` of the source: the first error ends the chain.
module _ {ℓ κ} {A : Type ℓ} {B : Type κ} where
  infixl 5 ◌>>=◌
  abbrev pub ◌>>=◌ : Result A → (A → Result B) → Result B
  err why >>= next = err why
  ok value >>= next = next value

  -- The steps of a chain that has a value.
  pub >>=-eq-ok :
      (r : Result A) (next : A → Result B) {value : B}
      → (r >>= next) ≡ ok value
      → (mid : A) × (r ≡ ok mid) × (next mid ≡ ok value)
  >>=-eq-ok (err why) next h = cc
  >>=-eq-ok (ok mid) next h = (mid, refl, h)

-- A result beside a state that outlives its error.
abbrev pub and_then : {A B S : Type 0} → Result A × S → (A → S → Result B × S) → Result B × S
and_then (err why, s) next = (err why, s)
and_then (ok value, s) next = next value s

-- The steps of such a chain.
pub and_then-eq-ok :
    {A B S : Type 0} (m : Result A × S) (next : A → S → Result B × S) {b : B} {u : S}
    → and_then m next ≡ (ok b, u)
    → (a : A) × ((s : S) × ((m ≡ (ok a, s)) × (next a s ≡ (ok b, u))))
and_then-eq-ok (err why, s) next h = cc
and_then-eq-ok (ok a, s) next h = (a, (s, (refl, h)))

-- What holds of the value, where there is one.
abbrev pub Holds : {A : Type 0} → (A → Type 0) → Result A → Type 0
Holds P (ok a) = P a
Holds P (err e) = Unit {0}

pub Holds-bind :
    {A B : Type 0} (P : A → Type 0) (Q : B → Type 0) (m : Result A) (f : A → Result B)
    → Holds P m
    → ((a : A) → P a → Holds Q (f a))
    → Holds Q (m >>= f)
Holds-bind P Q (ok a) f h next = next a h
Holds-bind P Q (err e) f h next = tt

-- Where nothing needs to be known of the first step.
pub Holds-any :
    {A B : Type 0} (Q : B → Type 0) (m : Result A) (f : A → Result B)
    → ((a : A) → Holds Q (f a))
    → Holds Q (m >>= f)
Holds-any Q (ok a) f next = next a
Holds-any Q (err e) f next = tt

pub Holds-if :
    {A : Type 0} (P : A → Type 0) (b : Bool) (r s : Result A)
    → Holds P r
    → Holds P s
    → Holds P (if b then r else s)
Holds-if P true r s h k = h
Holds-if P false r s h k = k

pub Holds-weaken :
    {A : Type 0} (P Q : A → Type 0) (m : Result A) → ((a : A) → P a → Q a) → Holds P m → Holds Q m
Holds-weaken P Q (ok a) f h = f a h
Holds-weaken P Q (err e) f h = tt

-- No value, only an error.
abbrev pub IsRefused : {A : Type 0} → Result A → Type 0
IsRefused r = (why : Error) × (r ≡ err why)

pub and_then-IsRefused :
    {A B S : Type 0} (m : Result A × S) (next : A → S → Result B × S)
    → IsRefused m.0
    → IsRefused (and_then m next).0
and_then-IsRefused (err why, s) next h = (why, refl)
and_then-IsRefused (ok a, s) next (why, h) = cc h

pub >>=-IsRefused :
    {A B : Type 0} (r : Result A) (next : A → Result B) → IsRefused r → IsRefused (r >>= next)
>>=-IsRefused (err why) next h = (why, refl)
>>=-IsRefused (ok a) next (why, h) = cc h
