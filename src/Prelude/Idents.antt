-- ===== src/Prelude/Idents.antt =====
-- Sets of identifiers (`HashSet<u32>`), as lists.
use Prim.Native.Nat.{ℕ}
use mathlib.Core.Path.{◌≡◌, refl}
use mathlib.Core.Bool.{Bool, true, false, ◌||◌}
use mathlib.Core.List.{List, [], ◌∷◌}
use native.Mathlib.Omega.{arith}
use tvm_linker.Prelude.Tests.{if◌then◌else◌, ◌==◌}

unfoldable pub contains : ℕ → List ℕ → Bool
contains a [] = false
contains a (x ∷ xs) = (x == a) || contains a xs

-- `HashSet::insert`, without its answer.
unfoldable pub include : ℕ → List ℕ → List ℕ
include a xs = if contains a xs then xs else a ∷ xs

pub contains-include :
    (a b : ℕ) (xs : List ℕ) → contains b (include a xs) ≡ ((a == b) || contains b xs)
unfolding contains include
contains-include a b xs = ground arith

pub include_self : (a : ℕ) (xs : List ℕ) → contains a xs ≡ true → include a xs ≡ xs
unfolding include
include_self a xs h = rw h

pub contains-include_self : (a : ℕ) (xs : List ℕ) → contains a (include a xs) ≡ true
contains-include_self a xs = ground (arith, contains-include a a xs)

pub contains-include_old :
    (a b : ℕ) (xs : List ℕ) → contains b xs ≡ true → contains b (include a xs) ≡ true
contains-include_old a b xs h = ground (arith, contains-include a b xs)

pub contains-nil : (a : ℕ) → contains a [] ≡ false
unfolding contains
contains-nil a = refl
