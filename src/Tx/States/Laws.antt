-- ===== src/Tx/States/Laws.antt =====
-- The destinations of a class: `iso_state_get` keeps the tables and pools in order, and where it
-- returns what is not the destination's state.
use eyeq.Common.{
  if◌then◌else◌, ℕ, ◌≤◌, ◌≡◌, refl, Bool, true, false, List, [], ◌∷◌, ◌==◌, ok, length, All,
  Bool-cases, inl, inr,
}
use eyeq.Common.Store.{Store, IsAllocated, Holds}
use eyeq.Kernel.{Kernel, Skb}
use eyeq.Params.{Params}
use eyeq.Tx.States.{
  Ptr, list_head, take_state, refill_low, null, entry, DestState, Pool, state_hash, scan, get_found,
  peer, state_get,
}

-- The tables and pools hold objects that are allocated; there is a limiter in the pool for every
-- state there, and the states there are counted.
pub record IsValid (pool : Pool) : Type 0 where
  pub states_ok : (b : ℕ) → All (IsAllocated pool.states) (pool.state_bucket b)
  pub rls_ok : (b : ℕ) → All (IsAllocated pool.rls) (pool.rl_bucket b)
  pub free_states : All (IsAllocated pool.states) pool.prealloc_states
  pub free_rls : All (IsAllocated pool.rls) pool.prealloc_rls
  pub balanced : length pool.prealloc_states ≤ length pool.prealloc_rls
  pub counted : pool.freelist_count ≡ length pool.prealloc_states

pub scan_ok :
    (K : Kernel) (states : Store DestState) (ip : ℕ) (bucket : List ℕ) (cursor : Ptr)
    → All (IsAllocated states) bucket
    → (p : Ptr) × (scan K states ip bucket cursor ≡ ok p)
unfolding scan
scan_ok K states ip [] cursor h = (_, refl)
scan_ok K states ip (i ∷ rest) cursor ((st, here), h) = elim (Bool-cases (st.ip_key == ip)) [
  | inl match ↦ (entry i, rw (here, match) refl)
  | inr other ↦ let (p, e) = scan_ok K states ip rest (entry i) h in (p, rw (here, other) e)
]

-- A search whose bucket holds only states of other destinations ends at one of them, if it keeps
-- its cursor.
scan_stays :
    (K : Kernel) (states : Store DestState) (ip i : ℕ) (rest : List ℕ) (cursor : Ptr)
    → K.hlist_keeps_cursor ≡ true
    → All (Holds (λ st. (st.ip_key == ip) ≡ false) states) (i ∷ rest)
    → (j : ℕ) × (scan K states ip (i ∷ rest) cursor ≡ ok (entry j))
      × Holds (λ st. (st.ip_key == ip) ≡ false) states j
unfolding scan
scan_stays K states ip i [] cursor k ((st, here, other), h) =
    (i, rw (here, other, k) refl, (st, here, other))
scan_stays K states ip i (next ∷ rest) cursor k ((st, here, other), h) =
    let (j, e, held) = scan_stays K states ip next rest (entry i) k h in
    (j, rw (here, other) e, held)

-- Where the kernel's macro keeps its cursor, a packet to a destination that has no state, but whose
-- bucket is not empty, gets the state of another destination, and none is created.
pub state_get_collides :
    (K : Kernel) (P : Params) (n : ℕ) (skb : Skb) (rx create locked : Bool) (pool : Pool) (i : ℕ)
    (rest : List ℕ)
    → K.hlist_keeps_cursor ≡ true
    → skb.is_ip ≡ true
    → pool.state_bucket (state_hash K (peer K rx skb)) ≡ i ∷ rest
    → All (Holds (λ st. (st.ip_key == peer K rx skb) ≡ false) pool.states) (i ∷ rest)
    → (j : ℕ) × (state_get K P n skb rx create locked pool ≡ ok (entry j, pool))
      × Holds (λ st. (st.ip_key == peer K rx skb) ≡ false) pool.states j
unfolding state_get get_found
state_get_collides K P n skb rx create locked pool i rest k ip bucket h =
    let (j, e, held) = scan_stays K pool.states (peer K rx skb) i rest null k h in
    (j, rw (ip, bucket, e) refl, held)

-- When the pool of states is empty, the first packet of a new destination whose bucket is empty gets
-- a pointer that is neither NULL nor a state.
pub state_get_exhausted :
    (K : Kernel) (P : Params) (n : ℕ) (skb : Skb) (rx : Bool) (pool : Pool)
    → skb.is_ip ≡ true
    → pool.state_bucket (state_hash K (peer K rx skb)) ≡ []
    → pool.prealloc_states ≡ []
    → (pool' : Pool) × (state_get K P n skb rx true true pool ≡ ok (list_head, pool'))
unfolding state_get scan get_found take_state refill_low
state_get_exhausted K P n skb rx pool ip bucket none_left = elim (Bool-cases K.hlist_keeps_cursor) [
  | inl k ↦ ((refill_low (list_head, pool)).1, rw (ip, bucket, k, none_left) refl)
  | inr k ↦ ((refill_low (list_head, pool)).1, rw (ip, bucket, k, none_left) refl)
]

if_false {ℓ} : {A : Type ℓ} (b : Bool) (x y : A) → b ≡ false → (if b then x else y) ≡ y
if_false b x y h = rw h refl

-- A packet that is not IP has no state.
pub state_get_other :
    (K : Kernel) (P : Params) (n : ℕ) (skb : Skb) (rx create locked : Bool) (pool : Pool)
    → skb.is_ip ≡ false
    → state_get K P n skb rx create locked pool ≡ ok (null, pool)
unfolding state_get
state_get_other K P n skb rx create locked pool h = if_false skb.is_ip _ _ h
