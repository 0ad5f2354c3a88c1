-- ===== src/Prelude/Maps.antt =====
-- Maps as association lists. A `BTreeMap` is kept in the order of its keys; of a `HashMap`, whose
-- order is not specified, the same list serves.
use Prim.Native.Nat.{ℕ}
use Prim.Native.String.{String}
use mathlib.Core.Path.{◌≡◌, refl}
use mathlib.Core.Logic.{◌↔◌, ◌⊎◌}
use mathlib.Core.Bool.{Bool, true}
use mathlib.Core.Option.{Option, none, some}
use mathlib.Core.List.{List, [], ◌∷◌}
use native.Mathlib.Omega.{arith}
use text.Mathlib.Text.{◌==◌ as str_eq}
use text.Mathlib.TextEquality.{eq_iff}
use tvm_linker.Prelude.Tests.{if◌then◌else◌, ltb, ◌==◌}
use tvm_linker.Prelude.Text.{codes, codes_lt}

pub record Key (K : Type 0) : Type 0 where
  pub beq : K → K → Bool
  pub beq_iff : (a b : K) → (beq a b ≡ true) ↔ (a ≡ b)
  pub before : K → K → Bool

pub nat_beq_iff : (a b : ℕ) → ((a == b) ≡ true) ↔ (a ≡ b)
nat_beq_iff a b = (λ h. ground arith, λ h. ground arith)

instance abbrev pub nat_key : Key ℕ
nat_key = record { beq = ◌==◌; beq_iff = nat_beq_iff; before = ltb }

instance abbrev pub string_key : Key String
string_key = record { beq = str_eq; beq_iff = eq_iff; before = λ s t. codes_lt (codes s) (codes t) }

abbrev pub Dict : Type 0 → Type 0 → Type 0
Dict K V = List (K × V)

-- Membership by recursion, which the tactics take apart.
abbrev pub Has : {A : Type 0} → A → List A → Type 0
Has a [] = ⊥
Has a (x ∷ xs) = (a ≡ x) ⊎ Has a xs

module _ {K V : Type 0} ⦃o : Key K⦄ where
  unfoldable pub lookup : K → Dict K V → Option V
  lookup k [] = none
  lookup k ((j, v) ∷ m) = if o.beq j k then some v else lookup k m

  unfoldable pub insert : K → V → Dict K V → Dict K V
  insert k v [] = (k, v) ∷ []
  insert k v ((j, w) ∷ m) =
      if o.beq j k
      then (k, v) ∷ m
      else if o.before k j
      then (k, v) ∷ (j, w) ∷ m
      else (j, w) ∷ insert k v m

  -- The map's `get_mut` with a write: a missing key is left missing.
  unfoldable pub adjust : K → (V → V) → Dict K V → Dict K V
  adjust k f [] = []
  adjust k f ((j, w) ∷ m) = if o.beq j k then (j, f w) ∷ m else (j, w) ∷ adjust k f m

  -- `retain`
  unfoldable pub retain : (K → V → Bool) → Dict K V → Dict K V
  retain p [] = []
  retain p ((j, w) ∷ m) = if p j w then (j, w) ∷ retain p m else retain p m

  pub lookup-insert :
      (k j : K) (v : V) (m : Dict K V)
      → lookup j (insert k v m) ≡ (if o.beq k j then some v else lookup j m)
  unfolding lookup insert
  lookup-insert k j v [] = refl
  lookup-insert k j v ((i, w) ∷ m) =
      ground (arith, o.beq_iff k j, o.beq_iff i k, o.beq_iff i j, lookup-insert k j v m)

  pub lookup-adjust :
      (k j : K) (f : V → V) (m : Dict K V)
      → lookup j (adjust k f m) ≡ (
          if o.beq k j then elim (lookup j m) [ none ↦ none | some v ↦ some (f v) ] else lookup j m)
  unfolding lookup adjust
  lookup-adjust k j f [] = ground arith
  lookup-adjust k j f ((i, w) ∷ m) =
      ground (arith, o.beq_iff k j, o.beq_iff i k, o.beq_iff i j, lookup-adjust k j f m)

  pub Has-lookup : (k : K) (v : V) (m : Dict K V) → lookup k m ≡ some v → Has (k, v) m
  unfolding lookup
  Has-lookup k v [] h = cc
  Has-lookup k v ((i, w) ∷ m) h = ground (arith, o.beq_iff i k, Has-lookup k v m)

  pub Has-insert :
      (k j : K) (v w : V) (m : Dict K V) → Has (j, w) (insert k v m) → Has (j, w) ((k, v) ∷ m)
  unfolding insert
  Has-insert k j v w [] h = h
  Has-insert k j v w ((i, u) ∷ m) h = ground (arith, Has-insert k j v w m)

  pub Has-retain :
      (p : K → V → Bool) (k : K) (v : V) (m : Dict K V)
      → Has (k, v) (retain p m) ↔ (Has (k, v) m × (p k v ≡ true))
  unfolding retain
  Has-retain p k v [] = (λ h. absurd h, λ h. absurd h.0)
  Has-retain p k v ((i, w) ∷ m) = ground (arith, Has-retain p k v m)
