-- ===== src/Prelude/Lists.antt =====
-- The equality of lists of numbers, as of byte strings.
use Prim.Native.Nat.{ℕ}
use mathlib.Core.Path.{◌≡◌, refl}
use mathlib.Core.Bool.{Bool, true, false}
use mathlib.Core.List.{List, [], ◌∷◌}
use mathlib.Core.Option.{Option, none, some}
use native.Mathlib.Omega.{arith}
use package.kalatori_backend.Prelude.Tests.{◌==◌, if◌then◌else◌}

unfoldable pub list_eq : List ℕ → List ℕ → Bool
list_eq [] [] = true
list_eq (x ∷ xs) (y ∷ ys) = let rest = list_eq xs ys in if x == y then rest else false
list_eq _ _ = false

-- a tail after a given front
unfoldable pub strip : List ℕ → List ℕ → Option (List ℕ)
strip [] ys = some ys
strip (x ∷ xs) (y ∷ ys) = let rest = strip xs ys in if x == y then rest else none
strip (x ∷ xs) [] = none

pub list_eq-≡ : (xs ys : List ℕ) → list_eq xs ys ≡ true → xs ≡ ys
unfolding list_eq
list_eq-≡ [] [] h = refl
list_eq-≡ [] (y ∷ ys) h = ground arith
list_eq-≡ (x ∷ xs) [] h = ground arith
list_eq-≡ (x ∷ xs) (y ∷ ys) h = ground (arith, list_eq-≡ xs ys)

pub list_eq_refl : (xs : List ℕ) → list_eq xs xs ≡ true
unfolding list_eq
list_eq_refl [] = refl
list_eq_refl (x ∷ xs) = ground (arith, list_eq_refl xs)
