-- ===== src/Tx/States/Stays.antt =====
-- A destination keeps its state: `iso_state_get` for other packets leaves it where it is found.
use eyeq.Common.{
  ℕ, ◌+◌, ◌≡◌, refl, sym, ap, ◌∙◌, Bool, true, false, not, ◌||◌, List, [], ◌∷◌, some, arith, count,
  same, leb, ◌==◌, Bool-cases, ==_iff, inl, inr, ok, ok-inj, >>=-eq-ok,
}
use mathlib.Core.Path.{subst}
use eyeq.Common.Store.{Store, read, write}
use eyeq.Kernel.{Kernel, Skb}
use eyeq.Params.{Params}
use eyeq.Rc.{rc_init}
use eyeq.Tx.States.{
  Ptr, null, entry, list_head, DestState, Pool, state_hash, scan, register, take_state, refill_low,
  get_found, peer, state_get,
}
use eyeq.Tx.States.Laws.{IsValid}
use eyeq.Tx.States.Pick.{IsPicked, pick_rl_ok}

-- The first state of a bucket with the address is that at `i`.
pub data Finds (states : Store DestState) (ip i : ℕ) : List ℕ → Type 0 where
  here :
      (st : DestState) (rest : List ℕ)
      → states i ≡ some st
      → (st.ip_key == ip) ≡ true
      → Finds states ip i (i ∷ rest)
  further :
      (k : ℕ) (st : DestState) (rest : List ℕ)
      → states k ≡ some st
      → (st.ip_key == ip) ≡ false
      → Finds states ip i rest
      → Finds states ip i (k ∷ rest)

scan-Finds :
    (K : Kernel) (states : Store DestState) (ip i : ℕ) (bucket : List ℕ) (cursor : Ptr)
    → Finds states ip i bucket
    → scan K states ip bucket cursor ≡ ok (entry i)
unfolding scan
scan-Finds K states ip i bucket cursor (here st rest held match) = rw (held, match) refl
scan-Finds K states ip i bucket cursor (further k st rest held other f) =
    rw (held, other) (scan-Finds K states ip i rest (entry k) f)

-- Another state may get another address.
write-Finds :
    (states : Store DestState) (ip i j : ℕ) (new : DestState) (bucket : List ℕ)
    → (i == j) ≡ false
    → (new.ip_key == ip) ≡ false
    → Finds states ip i bucket
    → Finds (write states j new) ip i bucket
write-Finds states ip i j new bucket apart differs (here st rest held match) =
    here st rest (rw apart held) match
write-Finds states ip i j new bucket apart differs (further k st rest held other f) =
    let later = write-Finds states ip i j new rest apart differs f in
    elim (Bool-cases (k == j)) [
      | inl written ↦ further k new rest (rw written refl) differs later
      | inr kept ↦ further k st rest (rw kept held) other later
    ]

-- The state at `i` is found under the address, and is not in the pool.
pub record IsStored (K : Kernel) (ip i : ℕ) (pool : Pool) : Type 0 where
  pub finds : Finds pool.states ip i (pool.state_bucket (state_hash K ip))
  pub taken : count i pool.prealloc_states ≡ 0

-- Whether the pool is to be filled does not matter.
pub scheduled-IsStored :
    (K : Kernel) (ip i : ℕ) (p : Ptr) (pool : Pool)
    → IsStored K ip i pool
    → IsStored K ip i (refill_low (p, pool)).1
unfolding refill_low
scheduled-IsStored K ip i p pool s = elim (Bool-cases (leb pool.freelist_count 10)) [
  | inl low ↦ rw low (record { finds = s.finds; taken = s.taken })
  | inr enough ↦ rw enough s
]

picked-IsStored :
    (K : Kernel) (ip i : ℕ) (pool pool' : Pool)
    → IsPicked pool pool'
    → IsStored K ip i pool
    → IsStored K ip i pool'
picked-IsStored K ip i pool pool' f s = record {
  finds = rw (f.states, f.state_bucket) s.finds;
  taken = rw f.prealloc_states s.taken;
}

-- The first state of the pool is given to another address.
register-IsStored :
    (K : Kernel) (P : Params) (n ip i other j : ℕ) (rest : List ℕ) (rl : Ptr) (pool : Pool)
    → (other == ip) ≡ false
    → pool.prealloc_states ≡ j ∷ rest
    → IsStored K ip i pool
    → IsStored K ip i (register K P n other j rest rl pool)
unfolding register
register-IsStored K P n ip i other j rest rl pool differs e s =
    let new : DestState = record { ip_key = other; rl = rl; tx_rc = rc_init K P n } in
    let here_too : write pool.states j new j ≡ some new = rw ((==_iff j j).1 refl) refl in
    let f = write-Finds pool.states ip i j new _ apart differs s.finds in
    record {
      finds = elim (Bool-cases (state_hash K ip == state_hash K other)) [
        | inl meets ↦
            let moved : Finds (write pool.states j new) ip i
                (pool.state_bucket (state_hash K other)) =
              subst (λ h. Finds (write pool.states j new) ip i (pool.state_bucket h))
                ((==_iff (state_hash K ip) (state_hash K other)).0 meets) f in
            rw meets (further j new (pool.state_bucket (state_hash K other)) here_too differs moved)
        | inr misses ↦ rw misses f
      ];
      taken = omega (arith, absent);
    }
  where
    absent : same i j + count i rest ≡ 0
    absent = rw e at s.taken

    apart : (i == j) ≡ false
    apart = elim (Bool-cases (i == j)) [
      | inl first ↦
          let one : 1 + count i rest ≡ 0 = rw first at absent in absurd (omega (arith, one))
      | inr other_one ↦ other_one
    ]

-- A packet of another address.
take_state-IsStored :
    (K : Kernel) (P : Params) (n ip i other : ℕ) (frees : List ℕ) (pool pool' : Pool) (p : Ptr)
    → IsValid pool
    → (other == ip) ≡ false
    → pool.prealloc_states ≡ frees
    → take_state K P n other frees pool ≡ ok (p, pool')
    → IsStored K ip i pool
    → IsStored K ip i pool'
unfolding take_state
take_state-IsStored K P n ip i other [] pool pool' p v differs e run s =
    subst (IsStored K ip i) (ap (λ (r : Ptr × Pool). r.1) (ok-inj run)) s
take_state-IsStored K P n ip i other (j ∷ rest) pool pool' p v differs e run s =
    let (st, held, later) = >>=-eq-ok (read pool.states j) _ run in
    let (rl, pool1, picks, picked, fate) = pick_rl_ok K other pool v in
    let same_pool : register K P n other j rest rl pool1 ≡ pool' =
      ap (λ (r : Ptr × Pool). r.1) (ok-inj (rw picks at later)) in
    subst (IsStored K ip i) same_pool (
      register-IsStored K P n ip i other j rest rl pool1 differs (picked.prealloc_states ∙ e)
        (picked-IsStored K ip i pool pool1 picked s))

get_found-IsStored :
    (K : Kernel) (P : Params) (n ip i other : ℕ) (create locked : Bool) (pool pool' : Pool)
    (p q : Ptr)
    → IsValid pool
    → (other == ip) ≡ false
    → get_found K P n other create locked pool p ≡ ok (q, pool')
    → IsStored K ip i pool
    → IsStored K ip i pool'
unfolding get_found
get_found-IsStored K P n ip i other create locked pool pool' (entry j) q v differs run s =
    subst (IsStored K ip i) (ap (λ (r : Ptr × Pool). r.1) (ok-inj run)) s
get_found-IsStored K P n ip i other create locked pool pool' list_head q v differs run s =
    subst (IsStored K ip i) (ap (λ (r : Ptr × Pool). r.1) (ok-inj run)) s
get_found-IsStored K P n ip i other create locked pool pool' null q v differs run s =
    elim (Bool-cases (not create || not locked)) [
      | inl declined ↦
          subst (IsStored K ip i) (ap (λ (r : Ptr × Pool). r.1) (ok-inj (rw declined at run))) s
      | inr going ↦
          let ((p', pool1), takes, later) =
            >>=-eq-ok (take_state K P n other pool.prealloc_states pool) _ (rw going at run) in
          subst (IsStored K ip i) (ap (λ (r : Ptr × Pool). r.1) (ok-inj later)) (
            scheduled-IsStored K ip i p' pool1 (
              take_state-IsStored K P n ip i other pool.prealloc_states pool pool1 p' v differs refl
                takes s))
    ]

-- A packet of the address finds the state, and changes nothing.
pub stored-found :
    (K : Kernel) (P : Params) (n ip i : ℕ) (skb : Skb) (rx create locked : Bool) (pool : Pool)
    → skb.is_ip ≡ true
    → peer K rx skb ≡ ip
    → IsStored K ip i pool
    → state_get K P n skb rx create locked pool ≡ ok (entry i, pool)
unfolding state_get get_found
stored-found K P n ip i skb rx create locked pool is_ip same_peer s =
    rw (is_ip, same_peer, scan-Finds K pool.states ip i _ null s.finds) refl

-- `iso_state_get`, for whatever packet, leaves the state where it is found.
pub state_get-IsStored :
    (K : Kernel) (P : Params) (n ip i : ℕ) (skb : Skb) (rx create locked : Bool) (pool pool' : Pool)
    (q : Ptr)
    → IsValid pool
    → state_get K P n skb rx create locked pool ≡ ok (q, pool')
    → IsStored K ip i pool
    → IsStored K ip i pool'
unfolding state_get
state_get-IsStored K P n ip i skb rx create locked pool pool' q v run s =
    elim (Bool-cases skb.is_ip) [
      | inr not_ip ↦
          subst (IsStored K ip i) (ap (λ (r : Ptr × Pool). r.1) (ok-inj (rw not_ip at run))) s
      | inl is_ip ↦ elim (Bool-cases (peer K rx skb == ip)) [
        | inl met ↦
            let found =
              stored-found K P n ip i skb rx create locked pool is_ip
                ((==_iff (peer K rx skb) ip).0 met) s in
            subst (IsStored K ip i) (ap (λ (r : Ptr × Pool). r.1) (ok-inj (sym found ∙ run))) s
        | inr differs ↦
            let (p, searched, later) =
              >>=-eq-ok
                (scan K pool.states (peer K rx skb)
                  (pool.state_bucket (state_hash K (peer K rx skb))) null)
                (get_found K P n (peer K rx skb) create locked pool) (rw is_ip at run) in
            get_found-IsStored K P n ip i (peer K rx skb) create locked pool pool' p q v differs
              later s
      ]
    ]
