-- ===== src/Common/Tallies.antt =====
-- How often a number stands in a list, and in the lists of a row of buckets.
use Prim.Native.Nat.{ℕ, zero, suc, ◌+◌, ◌≤◌, ◌<◌}
use mathlib.Core.Path.{◌≡◌, refl, ap}
use mathlib.Core.Bool.{false}
use mathlib.Core.List.{List, [], ◌∷◌, ◌++◌}
use mathlib.Core.Logic.{inl, inr}
use native.Mathlib.Omega.{arith}
use eyeq.Common.Tests.{◌==◌, if◌then◌else◌, Bool-cases, ==_iff}

-- 1 if the numbers are the same.
abbrev pub same : ℕ → ℕ → ℕ
same i j = if i == j then 1 else 0

abbrev pub count : ℕ → List ℕ → ℕ
count i [] = 0
count i (j ∷ rest) = same i j + count i rest

pub count-append : (i : ℕ) (xs ys : List ℕ) → count i (xs ++ ys) ≡ count i xs + count i ys
count-append i [] ys = omega arith
count-append i (x ∷ xs) ys = omega (arith, count-append i xs ys)

-- The entries of so many buckets, from the bucket `b` on.
unfoldable pub gather : ℕ → ℕ → (ℕ → List ℕ) → List ℕ
gather zero b buckets = []
gather (suc left) b buckets = buckets b ++ gather left (suc b) buckets

count-gather :
    (left b i : ℕ) (buckets : ℕ → List ℕ)
    → count i (gather (suc left) b buckets)
      ≡ count i (buckets b) + count i (gather left (suc b) buckets)
unfolding gather
count-gather left b i buckets = count-append i (buckets b) (gather left (suc b) buckets)

-- A bucket that is not among them.
gather-outside :
    (left b h i : ℕ) (buckets : ℕ → List ℕ) (xs : List ℕ)
    → h < b
    → count i (gather left b (λ c. if c == h then xs else buckets c))
      ≡ count i (gather left b buckets)
gather-outside zero b h i buckets xs out = unfold gather in refl
gather-outside (suc left) b h i buckets xs out =
    let apart : (b == h) ≡ false = ground arith in
    omega (
      arith,
      rw apart at (count-gather left b i (λ c. if c == h then xs else buckets c)),
      count-gather left b i buckets,
      gather-outside left (suc b) h i buckets xs (omega arith),
    )

-- An entry is put at the head of a bucket.
pub gather-cons :
    (left b h i j : ℕ) (buckets : ℕ → List ℕ)
    → b ≤ h
    → h < b + left
    → count i (gather left b (λ c. if c == h then j ∷ buckets h else buckets c))
      ≡ same i j + count i (gather left b buckets)
gather-cons zero b h i j buckets low high = absurd (omega arith)
gather-cons (suc left) b h i j buckets low high =
    let added = count-gather left b i (λ c. if c == h then j ∷ buckets h else buckets c) in
    let old = count-gather left b i buckets in
    elim (Bool-cases (b == h)) [
      | inl here ↦
          let e : b ≡ h = (==_iff b h).0 here in
          omega (
            arith,
            rw here at added,
            old,
            gather-outside left (suc b) h i buckets (j ∷ buckets h) (omega (arith, e)),
            ap (λ c. count i (buckets c)) e,
          )
      | inr apart ↦ omega (
        arith,
        rw apart at added,
        old,
        gather-cons left (suc b) h i j buckets (ground (arith, apart)) (omega arith),
      )
    ]
