-- ===== src/Tx/States/Valid.antt =====
-- `iso_state_get` keeps the tables and pools of a class in order, and finds what it registered.
use eyeq.Common.{
  ℕ, ◌≡◌, refl, ap, ◌∙◌, Bool, true, not, ◌||◌, List, [], ◌∷◌, arith, leb, ok, ◌>>=◌, length, All,
  All-map, Bool-cases, ==_iff, inl, inr, some,
}
use eyeq.Common.Store.{IsAllocated, write-IsAllocated}
use eyeq.Kernel.{Kernel, Skb}
use eyeq.Params.{Params}
use eyeq.Rc.{rc_init}
use eyeq.Tx.States.{
  Ptr, null, entry, list_head, DestState, Pool, state_hash, scan, pick_rl, register, take_state,
  refill_low, get_found, peer, state_get,
}
use eyeq.Tx.States.Laws.{IsValid, scan_ok}
use eyeq.Tx.States.Pick.{IsPicked, bucket-cons, pick_rl_ok}

pub register-IsValid :
    (K : Kernel) (P : Params) (n ip i : ℕ) (rest : List ℕ) (rl : Ptr) (pool pool' : Pool)
    → pool.prealloc_states ≡ i ∷ rest
    → IsValid pool
    → IsPicked pool pool'
    → IsValid (register K P n ip i rest rl pool')
unfolding register
register-IsValid K P n ip i rest rl pool pool' e v p =
    let (here, frees) = rw e at v.free_states in
    let st : DestState = record { ip_key = ip; rl = rl; tx_rc = rc_init K P n } in
    let keep = λ (j : ℕ). write-IsAllocated pool'.states i st j in
    let old : (b : ℕ) → All (IsAllocated pool'.states) (pool'.state_bucket b) =
      rw (p.states, p.state_bucket) v.states_ok in
    record {
      states_ok =
          bucket-cons pool'.states _ pool'.state_bucket (state_hash K ip) i keep
            (st, rw ((==_iff i i).1 refl) refl) old;
      rls_ok = p.rls_ok;
      free_states = All-map _ _ keep rest (rw p.states frees);
      free_rls = p.free_rls;
      balanced = omega (arith, p.taken, v.balanced, ap (λ (xs : List ℕ). length xs) e);
      counted = omega (arith, p.freelist_count, v.counted, ap (λ (xs : List ℕ). length xs) e);
    }

pub refill_low-IsValid : (p : Ptr) (pool : Pool) → IsValid pool → IsValid (refill_low (p, pool)).1
unfolding refill_low
refill_low-IsValid p pool v = elim (Bool-cases (leb pool.freelist_count 10)) [
  | inl low ↦ rw low (record {
    states_ok = v.states_ok;
    rls_ok = v.rls_ok;
    free_states = v.free_states;
    free_rls = v.free_rls;
    balanced = v.balanced;
    counted = v.counted;
  })
  | inr enough ↦ rw enough v
]

take_state_ok :
    (K : Kernel) (P : Params) (n ip : ℕ) (frees : List ℕ) (pool : Pool)
    → pool.prealloc_states ≡ frees
    → IsValid pool
    → (p : Ptr) × (pool' : Pool) × (take_state K P n ip frees pool ≡ ok (p, pool')) × IsValid pool'
unfolding take_state
take_state_ok K P n ip [] pool e v = (list_head, pool, refl, v)
take_state_ok K P n ip (i ∷ rest) pool e v =
    let ((st, here), frees) = rw e at v.free_states in
    let (rl, pool', run, picked, fate) = pick_rl_ok K ip pool v in
    (
      entry i,
      register K P n ip i rest rl pool',
      rw (here, run) refl,
      register-IsValid K P n ip i rest rl pool pool' e v picked,
    )

get_found_ok :
    (K : Kernel) (P : Params) (n ip : ℕ) (create locked : Bool) (pool : Pool) (found : Ptr)
    → IsValid pool
    → (p : Ptr) × (pool' : Pool) × (get_found K P n ip create locked pool found ≡ ok (p, pool'))
      × IsValid pool'
unfolding get_found
get_found_ok K P n ip create locked pool null v =
    let (p, pool', run, v') = take_state_ok K P n ip pool.prealloc_states pool refl v in
    elim (Bool-cases (not create || not locked)) [
      | inl declined ↦ (null, pool, rw declined refl, v)
      | inr going ↦
          (p, (refill_low (p, pool')).1, rw (going, run) refl, refill_low-IsValid p pool' v')
    ]
get_found_ok K P n ip create locked pool (entry i) v = (entry i, pool, refl, v)
get_found_ok K P n ip create locked pool list_head v = (list_head, pool, refl, v)

-- No call of `iso_state_get` on valid tables and pools faults, and it keeps them valid: what they
-- hold is allocated, there is a limiter for every state in the pool, and these are counted.
pub state_get-IsValid :
    (K : Kernel) (P : Params) (n : ℕ) (skb : Skb) (rx create locked : Bool) (pool : Pool)
    → IsValid pool
    → (p : Ptr) × (pool' : Pool) × (state_get K P n skb rx create locked pool ≡ ok (p, pool'))
      × IsValid pool'
unfolding state_get
state_get-IsValid K P n skb rx create locked pool v =
    let ip = peer K rx skb in
    let (found, e) =
      scan_ok K pool.states ip (pool.state_bucket (state_hash K ip)) null
        (v.states_ok (state_hash K ip)) in
    elim (Bool-cases skb.is_ip) [
      | inl is_ip ↦ rw (is_ip, e) (get_found_ok K P n ip create locked pool found v)
      | inr other ↦ (null, pool, rw other refl, v)
    ]

pub state_get-search :
    (K : Kernel) (P : Params) (n : ℕ) (skb : Skb) (rx create locked : Bool) (pool : Pool) (p : Ptr)
    → skb.is_ip ≡ true
    → scan K pool.states (peer K rx skb) (pool.state_bucket (state_hash K (peer K rx skb))) null
      ≡ ok p
    → state_get K P n skb rx create locked pool
      ≡ get_found K P n (peer K rx skb) create locked pool p
unfolding state_get
state_get-search K P n skb rx create locked pool p ip e = rw (ip, e) refl

pub get_found-takes :
    (K : Kernel) (P : Params) (n ip i : ℕ) (rest : List ℕ) (st : DestState) (rl : Ptr)
    (pool pool' : Pool)
    → pool.prealloc_states ≡ i ∷ rest
    → pool.states i ≡ some st
    → pick_rl K ip pool ≡ ok (rl, pool')
    → get_found K P n ip true true pool null
      ≡ ok (refill_low (entry i, register K P n ip i rest rl pool'))
unfolding get_found take_state
get_found-takes K P n ip i rest st rl pool pool' e here run =
    ap (λ frees. take_state K P n ip frees pool >>= λ r. ok (refill_low r)) e ∙ rw (here, run) refl
