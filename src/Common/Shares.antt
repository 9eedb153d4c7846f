-- ===== src/Common/Shares.antt =====
-- Dividing a capacity in proportion to weights.
use native.Mathlib.Nat.{div-mul-le_self, le_of_mul-le-mul_right, mul-le-mul_left, le_trans}
use Prim.Native.Nat.{ℕ, ◌*◌, ◌/◌, ◌≤◌, ◌<◌}
use mathlib.Core.List.{List, [], ◌∷◌}
use native.Mathlib.Omega.{arith}
use eyeq.Common.Lists.{sum_by}

module _ {ℓ} {A : Type ℓ} (w : A → ℕ) (capacity total : ℕ) where
  -- The shares of a list, times the total weight, do not exceed the capacity times its weight.
  shares_scaled :
      (xs : List A) → sum_by (λ x. capacity * w x / total) xs * total ≤ capacity * sum_by w xs
  shares_scaled [] = omega arith
  shares_scaled (x ∷ xs) = omega (arith, shares_scaled xs, div-mul-le_self (capacity * w x) total)

  -- If the weights make up no more than the total, the shares fit into the capacity.
  pub shares-le :
      (xs : List A)
      → 0 < total
      → sum_by w xs ≤ total
      → sum_by (λ x. capacity * w x / total) xs ≤ capacity
  shares-le xs h fit =
      le_of_mul-le-mul_right {m = sum_by (λ x. capacity * w x / total) xs} {n = capacity}
        {k = total} (le_trans (shares_scaled xs) (mul-le-mul_left capacity fit)) h
