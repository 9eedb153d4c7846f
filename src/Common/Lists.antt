-- ===== src/Common/Lists.antt =====
-- Sums and predicates over lists, and per-cpu data: a function from the cpu's number.
use Prim.Native.Nat.{ℕ, suc, ◌+◌}
use mathlib.Core.Path.{◌≡◌, refl}
use mathlib.Core.Bool.{Bool, false, ◌||◌}
use mathlib.Core.List.{List, [], ◌∷◌, ◌++◌}
use native.Mathlib.Omega.{arith}
use eyeq.Common.Tests.{◌==◌, if◌then◌else◌}

module _ {ℓ} {A : Type ℓ} where
  abbrev pub length : List A → ℕ
  length [] = 0
  length (x ∷ xs) = suc (length xs)

  -- The sum of a measure over a list.
  abbrev pub sum_by : (A → ℕ) → List A → ℕ
  sum_by w [] = 0
  sum_by w (x ∷ xs) = w x + sum_by w xs

  abbrev pub All {κ} : (A → Type κ) → List A → Type κ
  All P [] = Unit
  All P (x ∷ xs) = P x × All P xs

  pub All-map {κ κ'} :
      (P : A → Type κ) (Q : A → Type κ')
      → ((x : A) → P x → Q x)
      → (xs : List A) → All P xs
      → All Q xs
  All-map P Q f [] h = tt
  All-map P Q f (x ∷ xs) h = (f x h.0, All-map P Q f xs h.1)

  pub sum_by-append : (w : A → ℕ) (xs ys : List A) → sum_by w (xs ++ ys) ≡ sum_by w xs + sum_by w ys
  sum_by-append w [] ys = omega arith
  sum_by-append w (x ∷ xs) ys = omega (arith, sum_by-append w xs ys)

  pub length-append : (xs ys : List A) → length (xs ++ ys) ≡ length xs + length ys
  length-append [] ys = omega arith
  length-append (x ∷ xs) ys = omega (arith, length-append xs ys)

  pub All-append {κ} : (P : A → Type κ) (xs ys : List A) → All P xs → All P ys → All P (xs ++ ys)
  All-append P [] ys hx hy = hy
  All-append P (x ∷ xs) ys hx hy = (hx.0, All-append P xs ys hx.1 hy)

-- Whether a number is in a list, and that none is there twice.
abbrev pub contains : ℕ → List ℕ → Bool
contains i [] = false
contains i (j ∷ rest) = i == j || contains i rest

abbrev pub Distinct : List ℕ → Type 0
Distinct [] = Unit {0}
Distinct (i ∷ rest) = (contains i rest ≡ false) × Distinct rest

pub contains-append_last :
    (i j : ℕ) (xs : List ℕ) → contains i (xs ++ (j ∷ [])) ≡ (contains i xs || i == j)
contains-append_last i j [] = ground arith
contains-append_last i j (x ∷ xs) = ground (arith, contains-append_last i j xs)

pub Distinct-append_last :
    (j : ℕ) (xs : List ℕ) → Distinct xs → contains j xs ≡ false → Distinct (xs ++ (j ∷ []))
Distinct-append_last j [] d h = (refl, tt)
Distinct-append_last j (x ∷ xs) d h = (
  ground (arith, contains-append_last x j xs, d.0, h),
  Distinct-append_last j xs d.1 (ground arith),
)

-- `per_cpu_ptr`: the entry of a cpu, and a write to it.
abbrev pub Percpu {ℓ} : Type ℓ → Type ℓ
Percpu A = ℕ → A

abbrev pub set_cpu {ℓ} : {A : Type ℓ} → Percpu A → ℕ → A → Percpu A
set_cpu f cpu a i = if i == cpu then a else f i
