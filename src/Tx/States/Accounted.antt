-- ===== src/Tx/States/Accounted.antt =====
-- Every state and limiter of a class stands in one place: in one bucket, or in the pool.
use eyeq.Common.{
  ℕ, ◌+◌, ◌<◌, ◌≡◌, refl, sym, ap, ◌∙◌, List, [], ◌∷◌, ◌++◌, arith, count, same, count-append,
  gather, gather-cons, ◌==◌, Bool-cases, ==_iff, inl, inr, none,
}
use eyeq.Common.Store.{Store, IsAllocated, at, write, measure_of}
use eyeq.Params.{max_buckets}
use eyeq.Tx.Classes.{set_bucket}
use eyeq.Tx.States.{Pool}

abbrev pub one {ℓ} : {A : Type ℓ} → A → ℕ
one a = 1

-- What buckets and a pool name is what is allocated, each once.
pub record IsAccounted {ℓ} {A : Type ℓ} (buckets : ℕ → List ℕ) (frees : List ℕ) (s : Store A)
    : Type ℓ where
  pub once : (i : ℕ) → at one s i ≡ count i (gather max_buckets 0 buckets) + count i frees

module _ {ℓ} {A : Type ℓ} where
  pub at_one-write :
      (s : Store A) (j : ℕ) (a : A) (i : ℕ) → IsAllocated s j → at one (write s j a) i ≡ at one s i
  at_one-write s j a i (old, here) = elim (Bool-cases (i == j)) [
    | inl e ↦ rw e (ap (measure_of one) (sym here) ∙ ap (λ k. at one s k) (sym ((==_iff i j).0 e)))
    | inr e ↦ rw e refl
  ]

  at_one-add :
      (s : Store A) (j : ℕ) (a : A) (i : ℕ)
      → s j ≡ none
      → at one (write s j a) i ≡ same i j + at one s i
  at_one-add s j a i unused = elim (Bool-cases (i == j)) [
    | inl e ↦
        let name : i ≡ j = (==_iff i j).0 e in
        rw e (omega (arith, ap (measure_of one) unused, ap (λ k. at one s k) name))
    | inr e ↦ rw e (omega arith)
  ]

  -- An object is changed.
  pub write-IsAccounted :
      (buckets : ℕ → List ℕ) (frees : List ℕ) (s : Store A) (j : ℕ) (a : A)
      → IsAllocated s j
      → IsAccounted buckets frees s
      → IsAccounted buckets frees (write s j a)
  write-IsAccounted buckets frees s j a held v = record {
    once = λ i. at_one-write s j a i held ∙ v.once i;
  }

  -- A new object is put at the end of the pool.
  pub add-IsAccounted :
      (buckets : ℕ → List ℕ) (frees : List ℕ) (s : Store A) (j : ℕ) (a : A)
      → s j ≡ none
      → IsAccounted buckets frees s
      → IsAccounted buckets (frees ++ (j ∷ [])) (write s j a)
  add-IsAccounted buckets frees s j a unused v = record {
    once = λ i. omega (arith, at_one-add s j a i unused, v.once i, count-append i frees (j ∷ []));
  }

  -- The first object of the pool is put into a bucket.
  pub take-IsAccounted :
      (buckets : ℕ → List ℕ) (j h : ℕ) (rest : List ℕ) (s : Store A)
      → h < max_buckets
      → IsAccounted buckets (j ∷ rest) s
      → IsAccounted (set_bucket buckets h (j ∷ buckets h)) rest s
  take-IsAccounted buckets j h rest s fits v = record {
    once = λ i. omega (
      arith,
      v.once i,
      gather-cons max_buckets 0 h i j buckets (omega arith) (omega (arith, fits)),
    );
  }

-- Both the limiters and the states.
pub record IsTidy (pool : Pool) : Type 0 where
  pub rls : IsAccounted pool.rl_bucket pool.prealloc_rls pool.rls
  pub states : IsAccounted pool.state_bucket pool.prealloc_states pool.states
