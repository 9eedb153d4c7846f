-- ===== src/Tx/Free/Pools.antt =====
-- `iso_txc_free` releases what a class holds, each object once.
use eyeq.Common.{ℕ, ◌≡◌, refl, ap, List, [], arith, Option-cases, inl, inr, none, ok}
use eyeq.Common.Store.{Store, at, measure_of}
use eyeq.Params.{max_buckets}
use eyeq.Tx.Free.{free_at, free_list, free_buckets, free_pool, no_entries}
use eyeq.Tx.Free.Laws.{free_list-IsFreed, free_buckets-IsFreed}
use eyeq.Tx.States.{Pool}
use eyeq.Tx.States.Accounted.{one, IsAccounted, IsTidy}

-- The loop over the buckets, and then that over the pool.
module _ {ℓ} {A : Type ℓ} (buckets : ℕ → List ℕ) (frees : List ℕ) (s : Store A) where
  free_all :
      IsAccounted buckets frees s
      → (s1 : Store A) × (s2 : Store A) × (free_buckets free_at max_buckets 0 buckets s ≡ ok s1)
        × (free_list free_at frees s1 ≡ ok s2)
        × ((i : ℕ) → s2 i ≡ none)
  free_all v =
      let (s1, run, f) =
        free_buckets-IsFreed max_buckets 0 buckets s (λ i. omega (arith, v.once i)) in
      let (s2, runs, g) = free_list-IsFreed frees s1 (λ i. omega (arith, v.once i, f.left i)) in
      (s1, s2, run, runs, λ i. none_left s2 i (omega (arith, v.once i, f.left i, g.left i)))
    where
      none_left : (s2 : Store A) (i : ℕ) → at one s2 i ≡ 0 → s2 i ≡ none
      none_left s2 i h = elim (Option-cases (s2 i)) [
        | inl gone ↦ gone
        | inr (a, here) ↦ absurd (omega (arith, ap (measure_of one) here, h))
      ]

-- The loops of `iso_txc_free` read nothing that was released, and leave no state and no limiter of the
-- class allocated. (Each stands in one place.)
pub free_pool-empties :
    (pool : Pool)
    → IsTidy pool
    → (pool' : Pool) × (free_pool pool ≡ ok pool')
      × ((i : ℕ) → pool'.rls i ≡ none)
      × ((i : ℕ) → pool'.states i ≡ none)
unfolding free_pool
free_pool-empties pool v =
    let (rls1, rls2, run1, run3, no_rls) =
      free_all pool.rl_bucket pool.prealloc_rls pool.rls v.rls in
    let (states1, states2, run2, run4, no_states) =
      free_all pool.state_bucket pool.prealloc_states pool.states v.states in
    (
      record pool {
        rl_bucket = no_entries;
        state_bucket = no_entries;
        prealloc_rls = [];
        prealloc_states = [];
        rls = rls2;
        states = states2;
      },
      rw (run1, run2, run3, run4) refl,
      no_rls,
      no_states,
    )
