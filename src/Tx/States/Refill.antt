-- ===== src/Tx/States/Refill.antt =====
-- What writes to the states and limiters of a class, and the allocator, keep.
use eyeq.Common.{
  ℕ, suc, ◌+◌, ◌≡◌, refl, false, List, [], ◌∷◌, ◌++◌, arith, length-append, ◌==◌, none, All,
  All-map, All-append, Bool-cases, ==_iff, inl, inr,
}
use eyeq.Common.Store.{Store, IsAllocated, Holds, write, write-Holds, write-IsAllocated}
use eyeq.Kernel.{Kernel}
use eyeq.Params.{Params}
use eyeq.Rl.{Rl}
use eyeq.Tx.States.{DestState, Pool, prealloc}
use eyeq.Tx.States.Accounted.{write-IsAccounted, add-IsAccounted}
use eyeq.Tx.States.Laws.{IsValid}
use eyeq.Tx.States.Complete.{HasRl, IsComplete}

write_rl-limited :
    (rls : Store Rl) (s : Store DestState) (j : ℕ) (rl : Rl) (ids : List ℕ)
    → All (Holds (HasRl rls) s) ids
    → All (Holds (HasRl (write rls j rl)) s) ids
write_rl-limited rls s j rl ids h = All-map _ _ keep ids h
  where
    keep : (i : ℕ) → Holds (HasRl rls) s i → Holds (HasRl (write rls j rl)) s i
    keep i (st, here, (k, points, held)) =
        (st, here, (k, points, write-IsAllocated rls j rl k held))

-- A limiter is written.
pub write_rl-IsComplete :
    (pool : Pool) (j : ℕ) (rl : Rl)
    → IsAllocated pool.rls j
    → IsComplete pool
    → IsComplete (record pool { rls = write pool.rls j rl })
write_rl-IsComplete pool j rl held c =
    let v = c.valid in
    let keep = write-IsAllocated pool.rls j rl in
    record {
      valid = record {
        states_ok = v.states_ok;
        rls_ok = λ b. All-map _ _ keep (pool.rl_bucket b) (v.rls_ok b);
        free_states = v.free_states;
        free_rls = All-map _ _ keep pool.prealloc_rls v.free_rls;
        balanced = v.balanced;
        counted = v.counted;
      };
      tidy = record {
        rls = write-IsAccounted _ _ pool.rls j rl held c.tidy.rls;
        states = c.tidy.states;
      };
      limited = λ b. write_rl-limited pool.rls pool.states j rl (pool.state_bucket b) (c.limited b);
    }

-- A state is written, and has a limiter.
pub write_state-IsComplete :
    (pool : Pool) (i : ℕ) (st : DestState)
    → IsAllocated pool.states i
    → HasRl pool.rls st
    → IsComplete pool
    → IsComplete (record pool { states = write pool.states i st })
write_state-IsComplete pool i st held has c =
    let v = c.valid in
    let keep = write-IsAllocated pool.states i st in
    record {
      valid = record {
        states_ok = λ b. All-map _ _ keep (pool.state_bucket b) (v.states_ok b);
        rls_ok = v.rls_ok;
        free_states = All-map _ _ keep pool.prealloc_states v.free_states;
        free_rls = v.free_rls;
        balanced = v.balanced;
        counted = v.counted;
      };
      tidy = record {
        rls = c.tidy.rls;
        states = write-IsAccounted _ _ pool.states i st held c.tidy.states;
      };
      limited = λ b.
          All-map _ _ (write-Holds (HasRl pool.rls) pool.states i st has) (pool.state_bucket b)
            (c.limited b);
    }

-- An address that no bucket of states names, as that of a new object.
abbrev IsApart : (ℕ → List ℕ) → ℕ → Type 0
IsApart buckets i = (b : ℕ) → All (λ j. (j == i) ≡ false) (buckets b)

unused-IsApart :
    (pool : Pool) (i : ℕ) → IsValid pool → pool.states i ≡ none → IsApart pool.state_bucket i
unused-IsApart pool i v gone b = All-map _ _ differs (pool.state_bucket b) (v.states_ok b)
  where
    differs : (j : ℕ) → IsAllocated pool.states j → (j == i) ≡ false
    differs j (st, here) = elim (Bool-cases (j == i)) [
      | inl same ↦ let name : j ≡ i = (==_iff j i).0 same in absurd (cc)
      | inr apart ↦ apart
    ]

write_apart :
    (rls : Store Rl) (j : ℕ) (rl : Rl) (s : Store DestState) (i : ℕ) (st : DestState) (ids : List ℕ)
    → All (λ k. (k == i) ≡ false) ids
    → All (Holds (HasRl rls) s) ids
    → All (Holds (HasRl (write rls j rl)) (write s i st)) ids
write_apart rls j rl s i st [] apart h = tt
write_apart rls j rl s i st (k ∷ ids) (other, apart) ((old, here, (m, points, held)), h) = (
  rw other (old, here, (m, points, write-IsAllocated rls j rl m held)),
  write_apart rls j rl s i st ids apart h,
)

add_last :
    {A : Type 0} (s : Store A) (i : ℕ) (a : A) (ids : List ℕ)
    → All (IsAllocated s) ids
    → All (IsAllocated (write s i a)) (ids ++ (i ∷ []))
add_last s i a ids h =
    All-append _ ids (i ∷ []) (All-map _ _ (write-IsAllocated s i a) ids h)
      (rw ((==_iff i i).1 refl) (a, refl), tt)

-- One state and one limiter are added to the pools.
add_one-IsComplete :
    (st : DestState) (rl : Rl) (i j : ℕ) (pool : Pool)
    → pool.states i ≡ none
    → pool.rls j ≡ none
    → IsComplete pool
    → IsComplete (record pool {
      states = write pool.states i st;
      rls = write pool.rls j rl;
      freelist_count = suc pool.freelist_count;
      prealloc_states = pool.prealloc_states ++ (i ∷ []);
      prealloc_rls = pool.prealloc_rls ++ (j ∷ []);
    })
add_one-IsComplete st rl i j pool new_state new_rl c =
    let v = c.valid in
    let apart = unused-IsApart pool i v new_state in
    let states = length-append pool.prealloc_states (i ∷ []) in
    record {
      valid = record {
        states_ok = λ b.
            All-map _ _ (write-IsAllocated pool.states i st) (pool.state_bucket b) (v.states_ok b);
        rls_ok = λ b. All-map _ _ (write-IsAllocated pool.rls j rl) (pool.rl_bucket b) (v.rls_ok b);
        free_states = add_last pool.states i st pool.prealloc_states v.free_states;
        free_rls = add_last pool.rls j rl pool.prealloc_rls v.free_rls;
        balanced = omega (arith, states, length-append pool.prealloc_rls (j ∷ []), v.balanced);
        counted = omega (arith, states, v.counted);
      };
      tidy = record {
        rls = add-IsAccounted pool.rl_bucket pool.prealloc_rls pool.rls j rl new_rl c.tidy.rls;
        states =
            add-IsAccounted pool.state_bucket pool.prealloc_states pool.states i st new_state
              c.tidy.states;
      };
      limited = λ b.
          write_apart pool.rls j rl pool.states i st (pool.state_bucket b) (apart b) (c.limited b);
    }

-- Each object that `iso_txc_prealloc` is given is not in use then.
unfoldable pub IsFresh : Kernel → Params → ℕ → List (ℕ × ℕ) → Pool → Type 0
IsFresh K P n [] pool = Unit
IsFresh K P n ((i, j) ∷ rest) pool =
    (pool.states i ≡ none)
    × (pool.rls j ≡ none)
    × IsFresh K P (n + 5) rest (prealloc K P n ((i, j) ∷ []) pool)

-- `iso_txc_prealloc` keeps complete pools complete.
pub prealloc-IsComplete :
    (K : Kernel) (P : Params) (n : ℕ) (adds : List (ℕ × ℕ)) (pool : Pool)
    → IsFresh K P n adds pool
    → IsComplete pool
    → IsComplete (prealloc K P n adds pool)
unfolding prealloc IsFresh
prealloc-IsComplete K P n [] pool fresh c = c
prealloc-IsComplete K P n ((i, j) ∷ rest) pool (new_state, new_rl, fresh) c =
    prealloc-IsComplete K P (n + 5) rest _ fresh
      (add_one-IsComplete _ _ i j pool new_state new_rl c)
