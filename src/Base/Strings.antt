-- ===== src/Base/Strings.antt =====
-- Strings as lists of bytes: their equality, and whether a list has one.
use Prim.Native.Nat.{ℕ}
use mathlib.Core.Path.{◌≡◌, refl}
use mathlib.Core.Bool.{Bool, true, false, ◌&&◌, ◌||◌}
use mathlib.Core.List.{List, [], ◌∷◌}
use native.Mathlib.Omega.{arith}
use cyu_core.Base.Tests.{◌==◌}

-- `==` on strings.
unfoldable pub same : List ℕ → List ℕ → Bool
same [] [] = true
same [] (b ∷ ys) = false
same (a ∷ xs) [] = false
same (a ∷ xs) (b ∷ ys) = (a == b) && same xs ys

pub same_of_eq : (xs : List ℕ) → same xs xs ≡ true
unfolding same
same_of_eq [] = refl
same_of_eq (a ∷ xs) = ground (arith, same_of_eq xs)

pub eq_of_same : (xs ys : List ℕ) → same xs ys ≡ true → xs ≡ ys
unfolding same
eq_of_same [] [] h = refl
eq_of_same [] (b ∷ ys) h = cc
eq_of_same (a ∷ xs) [] h = cc
eq_of_same (a ∷ xs) (b ∷ ys) h = ground (arith, eq_of_same xs ys)

unfoldable pub contains : List ℕ → List (List ℕ) → Bool
contains x [] = false
contains x (y ∷ ys) = same y x || contains x ys
