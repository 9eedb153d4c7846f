-- ===== src/Tx/Free/Laws.antt =====
-- A class is released completely.
use eyeq.Common.{
  ℕ, zero, suc, ◌+◌, ◌≤◌, ◌≡◌, refl, ap, List, [], ◌∷◌, arith, count, same, count-append, gather,
  ◌==◌, Bool-cases, ==_iff, Option-cases, inl, inr, some, ok,
}
use eyeq.Common.Store.{Store, at, free, measure_of}
use eyeq.Tx.Free.{free_at, free_list, free_buckets}

abbrev pub one {ℓ} : {A : Type ℓ} → A → ℕ
one a = 1

-- What a list names is released once, and nothing else.
pub record IsFreed {ℓ} {A : Type ℓ} (ids : List ℕ) (s s' : Store A) : Type ℓ where
  pub left : (i : ℕ) → at one s' i + count i ids ≡ at one s i

module _ {ℓ} {A : Type ℓ} where
  free_at-IsFreed :
      (i : ℕ) (s : Store A)
      → 1 ≤ at one s i
      → (s' : Store A) × (free_at i s ≡ ok s') × IsFreed (i ∷ []) s s'
  unfolding free_at
  free_at-IsFreed i s some_there = elim (Option-cases (s i)) [
    | inl gone ↦ absurd (omega (arith, ap (measure_of one) gone, some_there))
    | inr (a, here) ↦ (free s i, rw here refl, record { left = left_at a here })
  ]
    where
      left_at :
          (a : A) → s i ≡ some a → (j : ℕ) → at one (free s i) j + count j (i ∷ []) ≡ at one s j
      left_at a here j = elim (Bool-cases (j == i)) [
        | inl e ↦
            let name : j ≡ i = (==_iff j i).0 e in
            rw e (omega (arith, ap (measure_of one) here, ap (λ k. at one s k) name))
        | inr e ↦ rw e (omega arith)
      ]

  pub free_list-IsFreed :
      (ids : List ℕ) (s : Store A)
      → ((i : ℕ) → count i ids ≤ at one s i)
      → (s' : Store A) × (free_list free_at ids s ≡ ok s') × IsFreed ids s s'
  unfolding free_list
  free_list-IsFreed [] s h = (s, refl, record { left = λ i. omega arith })
  free_list-IsFreed (i ∷ rest) s h =
      let first : 1 ≤ at one s i =
        let here : same i i ≡ 1 = rw ((==_iff i i).1 refl) refl in omega (arith, h i, here) in
      let (s1, run, f) = free_at-IsFreed i s first in
      let (s', runs, g) = free_list-IsFreed rest s1 (λ j. omega (arith, h j, f.left j)) in
      (s', rw run runs, record { left = λ j. omega (arith, f.left j, g.left j) })

  pub free_buckets-IsFreed :
      (left b : ℕ) (buckets : ℕ → List ℕ) (s : Store A)
      → ((i : ℕ) → count i (gather left b buckets) ≤ at one s i)
      → (s' : Store A) × (free_buckets free_at left b buckets s ≡ ok s')
        × IsFreed (gather left b buckets) s s'
  unfolding free_buckets gather
  free_buckets-IsFreed zero b buckets s h = (s, refl, record { left = λ i. omega arith })
  free_buckets-IsFreed (suc left) b buckets s h =
      let rest = gather left (suc b) buckets in
      let (s1, run, f) =
        free_list-IsFreed (buckets b) s
          (λ i. omega (arith, h i, count-append i (buckets b) rest)) in
      let (s', runs, g) =
        free_buckets-IsFreed left (suc b) buckets s1
          (λ i. omega (arith, h i, count-append i (buckets b) rest, f.left i)) in
      (
        s',
        rw run runs,
        record { left = λ i. omega (arith, count-append i (buckets b) rest, f.left i, g.left i) },
      )
