-- ===== src/Tx/States/Complete.antt =====
-- The states of a class have limiters: `iso_state_get` keeps this, and what it returns is NULL or
-- such a state, unless the pool is exhausted.
use native.Mathlib.Nat.{mod-lt}
use eyeq.Common.{
  ℕ, ◌≡◌, refl, ap, ◌∙◌, ◌⊎◌, Bool, true, not, ◌||◌, List, [], ◌∷◌, arith, leb, ok, length, ◌==◌,
  All, All-map, Bool-cases, ==_iff, inl, inr,
}
use eyeq.Common.Store.{Store, IsAllocated, Holds, write}
use eyeq.Kernel.{Kernel, Skb}
use eyeq.Params.{Params}
use eyeq.Rc.{rc_init}
use eyeq.Rl.{Rl}
use eyeq.Tx.Classes.{set_bucket}
use eyeq.Tx.States.{
  Ptr, null, entry, list_head, DestState, Pool, state_hash, scan, register, take_state, refill_low,
  get_found, peer, state_get,
}
use eyeq.Tx.States.Accounted.{IsTidy, write-IsAccounted, take-IsAccounted}
use eyeq.Tx.States.Laws.{IsValid, state_get_other}
use eyeq.Tx.States.Pick.{IsPicked, IsLimiter, pick_rl_ok}
use eyeq.Tx.States.Valid.{register-IsValid, refill_low-IsValid, state_get-search}

-- A state points to a limiter that is allocated.
abbrev pub HasRl : Store Rl → DestState → Type 0
HasRl rls st = (j : ℕ) × (st.rl ≡ entry j) × IsAllocated rls j

pub record IsComplete (pool : Pool) : Type 0 where
  pub valid : IsValid pool
  pub tidy : IsTidy pool
  pub limited : (b : ℕ) → All (Holds (HasRl pool.rls) pool.states) (pool.state_bucket b)

-- What a search may return: NULL, or a state with a limiter.
pub data IsFound (pool : Pool) : Ptr → Type 0 where
  missing : IsFound pool null
  present : {i : ℕ} → Holds (HasRl pool.rls) pool.states i → IsFound pool (entry i)

scan-IsFound :
    (K : Kernel) (pool : Pool) (ip : ℕ) (bucket : List ℕ) (cursor : Ptr)
    → IsFound pool cursor
    → All (Holds (HasRl pool.rls) pool.states) bucket
    → (p : Ptr) × (scan K pool.states ip bucket cursor ≡ ok p) × IsFound pool p
unfolding scan
scan-IsFound K pool ip [] cursor f h = elim (Bool-cases K.hlist_keeps_cursor) [
  | inl keeps ↦ (cursor, rw keeps refl, f)
  | inr resets ↦ (null, rw resets refl, missing)
]
scan-IsFound K pool ip (i ∷ rest) cursor f ((st, here, limited), h) =
    elim (Bool-cases (st.ip_key == ip)) [
      | inl match ↦ (entry i, rw (here, match) refl, present (st, here, limited))
      | inr other ↦
          let (p, e, found) =
            scan-IsFound K pool ip rest (entry i) (present (st, here, limited)) h in
          (p, rw (here, other) e, found)
    ]

-- A bucket of states after one is put at its head.
limited-cons :
    (rls rls' : Store Rl) (s : Store DestState) (buckets : ℕ → List ℕ) (b i : ℕ) (st : DestState)
    → ((j : ℕ) → IsAllocated rls j → IsAllocated rls' j)
    → HasRl rls' st
    → ((c : ℕ) → All (Holds (HasRl rls) s) (buckets c))
    → (c : ℕ) → All (Holds (HasRl rls') (write s i st)) (set_bucket buckets b (i ∷ buckets b) c)
limited-cons rls rls' s buckets b i st alloc has h c = elim (Bool-cases (c == b)) [
  | inl same ↦
      rw same (rw ((==_iff i i).1 refl) (st, refl, has), All-map _ _ keep (buckets b) (h b))
  | inr apart ↦ rw apart (All-map _ _ keep (buckets c) (h c))
]
  where
    keep : (j : ℕ) → Holds (HasRl rls) s j → Holds (HasRl rls') (write s i st) j
    keep j (old, here, (k, points, held)) = elim (Bool-cases (j == i)) [
      | inl same ↦ rw same (st, refl, has)
      | inr apart ↦ rw apart (old, here, (k, points, alloc k held))
    ]

-- The fate of a call: what it returns is a state with a limiter or NULL; or the pool of states was
-- empty, a state was to be created, and what it returns is neither.
abbrev pub Fate : Bool → Pool → Pool → Ptr → Type 0
Fate create pool pool' p =
    IsFound pool' p ⊎ ((create ≡ true) × (pool.prealloc_states ≡ []) × (p ≡ list_head))

refill_low-IsComplete :
    (p : Ptr) (pool : Pool) → IsComplete pool → IsComplete (refill_low (p, pool)).1
unfolding refill_low
refill_low-IsComplete p pool c = elim (Bool-cases (leb pool.freelist_count 10)) [
  | inl low ↦ record {
    valid = refill_low-IsValid p pool c.valid;
    tidy = rw low (record { rls = c.tidy.rls; states = c.tidy.states });
    limited = rw low c.limited;
  }
  | inr enough ↦ rw enough c
]

refill_low-IsFound : (p : Ptr) (pool : Pool) → IsFound pool p → IsFound (refill_low (p, pool)).1 p
unfolding refill_low
refill_low-IsFound null pool f = missing
refill_low-IsFound list_head pool f = elim f [ ]
refill_low-IsFound (entry i) pool (present h) = elim (Bool-cases (leb pool.freelist_count 10)) [
  | inl low ↦ rw low (present h)
  | inr enough ↦ rw enough (present h)
]

register-IsComplete :
    (K : Kernel) (P : Params) (n ip i : ℕ) (rest : List ℕ) (rl : Ptr) (pool pool' : Pool)
    → pool.prealloc_states ≡ i ∷ rest
    → IsComplete pool
    → IsPicked pool pool'
    → (j : ℕ) × (rl ≡ entry j) × IsAllocated pool'.rls j
    → let pool2 = register K P n ip i rest rl pool' in IsComplete pool2 × IsFound pool2 (entry i)
unfolding register
register-IsComplete K P n ip i rest rl pool pool' e c picked has =
    let st : DestState = record { ip_key = ip; rl = rl; tx_rc = rc_init K P n } in
    let old : (b : ℕ) → All (Holds (HasRl pool.rls) pool'.states) (pool'.state_bucket b) =
      rw (picked.states, picked.state_bucket) c.limited in
    (
      record {
        valid = register-IsValid K P n ip i rest rl pool pool' e c.valid picked;
        tidy = record {
          rls = picked.accounted c.tidy.rls;
          states =
              write-IsAccounted _ rest pool'.states i st
                (rw picked.states (rw e at c.valid.free_states).0)
                (take-IsAccounted pool'.state_bucket i (state_hash K ip) rest pool'.states
                  (mod-lt (K.jhash ip 0xfacedead) (omega arith))
                  (rw (picked.states, picked.state_bucket) (rw e at c.tidy.states)));
        };
        limited =
            limited-cons pool.rls pool'.rls pool'.states pool'.state_bucket (state_hash K ip) i st
              picked.alloc has old;
      },
      present (st, rw ((==_iff i i).1 refl) refl, has),
    )

has_limiter :
    (i : ℕ) (rest : List ℕ) (pool pool' : Pool) (p : Ptr)
    → pool.prealloc_states ≡ i ∷ rest
    → IsValid pool
    → IsLimiter pool pool' p
    → (j : ℕ) × (p ≡ entry j) × IsAllocated pool'.rls j
has_limiter i rest pool pool' p e v (inl found) = found
has_limiter i rest pool pool' p e v (inr gone) = absurd (
    omega
      (arith, v.balanced, ap (λ (xs : List ℕ). length xs) e, ap (λ (xs : List ℕ). length xs) gone))

take_state-IsComplete :
    (K : Kernel) (P : Params) (n ip : ℕ) (frees : List ℕ) (pool : Pool)
    → pool.prealloc_states ≡ frees
    → IsComplete pool
    → (p : Ptr) × (pool' : Pool) × (take_state K P n ip frees pool ≡ ok (p, pool'))
      × IsComplete pool'
      × (IsFound pool' p ⊎ ((pool.prealloc_states ≡ []) × (p ≡ list_head)))
unfolding take_state
take_state-IsComplete K P n ip [] pool e c = (list_head, pool, refl, c, inr (e, refl))
take_state-IsComplete K P n ip (i ∷ rest) pool e c =
    let ((st, here), frees) = rw e at c.valid.free_states in
    let (rl, pool', run, picked, fate) = pick_rl_ok K ip pool c.valid in
    let (complete, found) =
      register-IsComplete K P n ip i rest rl pool pool' e c picked
        (has_limiter i rest pool pool' rl e c.valid fate) in
    (entry i, register K P n ip i rest rl pool', rw (here, run) refl, complete, inl found)

get_found-IsComplete :
    (K : Kernel) (P : Params) (n ip : ℕ) (create locked : Bool) (pool : Pool) (found : Ptr)
    → IsComplete pool
    → IsFound pool found
    → (p : Ptr) × (pool' : Pool) × (get_found K P n ip create locked pool found ≡ ok (p, pool'))
      × IsComplete pool'
      × Fate create pool pool' p
unfolding get_found
get_found-IsComplete K P n ip create locked pool null c f =
    elim (Bool-cases (not create || not locked)) [
      | inl declined ↦ (null, pool, rw declined refl, c, inl missing)
      | inr going ↦
          let (p, pool', run, c', fate) =
            take_state-IsComplete K P n ip pool.prealloc_states pool refl c in
          let creates : create ≡ true = ground (arith, going) in
          (
            p,
            (refill_low (p, pool')).1,
            rw (going, run) (unfold refill_low in refl),
            refill_low-IsComplete p pool' c',
            elim fate [
              | inl found ↦ inl (refill_low-IsFound p pool' found)
              | inr (empty, head) ↦ inr (creates, empty, head)
            ],
          )
    ]
get_found-IsComplete K P n ip create locked pool (entry i) c f = (entry i, pool, refl, c, inl f)
get_found-IsComplete K P n ip create locked pool list_head c f = elim f [ ]

-- `iso_state_get` on complete tables and pools does not fault, keeps them complete, and returns NULL
-- or a state with a limiter; unless it is to create a state, and the pool of states is empty.
pub state_get-IsComplete :
    (K : Kernel) (P : Params) (n : ℕ) (skb : Skb) (rx create locked : Bool) (pool : Pool)
    → IsComplete pool
    → (p : Ptr) × (pool' : Pool) × (state_get K P n skb rx create locked pool ≡ ok (p, pool'))
      × IsComplete pool'
      × Fate create pool pool' p
state_get-IsComplete K P n skb rx create locked pool c =
    let ip = peer K rx skb in
    let (found, e, f) =
      scan-IsFound K pool ip (pool.state_bucket (state_hash K ip)) null missing
        (c.limited (state_hash K ip)) in
    elim (Bool-cases skb.is_ip) [
      | inl is_ip ↦
          let (p, pool', run, c', fate) =
            get_found-IsComplete K P n ip create locked pool found c f in
          (p, pool', state_get-search K P n skb rx create locked pool found is_ip e ∙ run, c', fate)
      | inr other ↦
          (null, pool, state_get_other K P n skb rx create locked pool other, c, inl missing)
    ]
