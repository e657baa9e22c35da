-- ===== src/Base/Totals.antt =====
-- Sums over lists, and how often a list has a number.
use tsanalyzer.Base.Tests.{◌==◌, if◌then◌else◌}
use tsanalyzer.Base.Lists.{get_elem?, set}
use Prim.Native.Nat.{ℕ, zero, suc, ◌+◌}
use mathlib.Core.Path.{◌≡◌, ap}
use mathlib.Core.List.{List, [], ◌∷◌, ◌++◌}
use mathlib.Core.Option.{some, some-injective}
use native.Mathlib.Omega.{arith}

-- How much the elements of a list weigh together.
unfoldable pub total : {A : Type 0} → (A → ℕ) → List A → ℕ
total weight [] = 0
total weight (x ∷ xs) = weight x + total weight xs

pub total-set :
    {A : Type 0} (weight : A → ℕ) (xs : List A) (i : ℕ) (old new : A)
    → get_elem? xs i ≡ some old
    → total weight (set xs i new) + weight old ≡ total weight xs + weight new
unfolding total
total-set weight [] i old new e = cc
total-set weight (x ∷ xs) zero old new e = omega (arith, ap weight (some-injective x old e))
total-set weight (x ∷ xs) (suc i) old new e = omega (arith, total-set weight xs i old new e)

-- One for the item that is counted.
unfoldable pub is_item : ℕ → ℕ → ℕ
is_item x y = if x == y then 1 else 0

unfoldable pub count : ℕ → List ℕ → ℕ
count x xs = total (is_item x) xs

pub count-push : (x : ℕ) (xs : List ℕ) (y : ℕ) → count x (xs ++ (y ∷ [])) ≡ count x xs + is_item x y
unfolding count total
count-push x [] y = omega arith
count-push x (z ∷ xs) y = omega (arith, count-push x xs y)
