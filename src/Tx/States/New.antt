-- ===== src/Tx/States/New.antt =====
-- A new destination: the state that its first packet gets is its state from then on.
use eyeq.Common.{
  ℕ, ◌+◌, ◌≡◌, refl, sym, ap, ◌∙◌, Bool, true, List, ◌∷◌, some, arith, count, same, gather, ==_iff,
  ok, ok-inj,
}
use mathlib.Core.Path.{subst}
use eyeq.Common.Store.{IsAllocated, at, measure_of, write}
use eyeq.Kernel.{Kernel, Skb}
use eyeq.Params.{Params, max_buckets}
use eyeq.Rc.{rc_init}
use eyeq.Tx.States.{
  Ptr, null, entry, DestState, Pool, state_hash, scan, register, refill_low, peer, state_get,
}
use eyeq.Tx.States.Accounted.{one, IsTidy}
use eyeq.Tx.States.Laws.{IsValid}
use eyeq.Tx.States.Pick.{pick_rl_ok}
use eyeq.Tx.States.Valid.{state_get-IsValid, state_get-search, get_found-takes}
use eyeq.Tx.States.Stays.{here, IsStored, scheduled-IsStored, stored-found, state_get-IsStored}

-- Any number of calls of `iso_state_get`, for packets of any kind, in either direction, with and without
-- the lock.
pub data Calls (K : Kernel) (P : Params) (pool : Pool) : Pool → Type 0 where
  no_call : Calls K P pool pool
  then_call :
      {old new : Pool} (n : ℕ) (skb : Skb) (rx create locked : Bool) (p : Ptr)
      → Calls K P pool old
      → state_get K P n skb rx create locked old ≡ ok (p, new)
      → Calls K P pool new

Calls-IsStored :
    {K : Kernel} {P : Params} {pool later : Pool} (ip i : ℕ)
    → IsValid pool
    → IsStored K ip i pool
    → Calls K P pool later
    → IsValid later × IsStored K ip i later
Calls-IsStored ip i v s no_call = (v, s)
Calls-IsStored {K = K} {P = P} ip i v s
      (then_call {old = old} {new = new} n skb rx create locked p calls run) =
    let (v', s') = Calls-IsStored ip i v s calls in
    let (q, pool', run', valid) = state_get-IsValid K P n skb rx create locked old v' in
    let same_pool : pool' ≡ new = ap (λ (r : Ptr × Pool). r.1) (ok-inj (sym run' ∙ run)) in
    (
      subst IsValid same_pool valid,
      state_get-IsStored K P n ip i skb rx create locked old new p v' run s',
    )

-- The state that is registered is found, and has left the pool.
registered :
    (K : Kernel) (P : Params) (n ip i : ℕ) (rest : List ℕ) (rl : Ptr) (pool : Pool)
    → count i rest ≡ 0
    → IsStored K ip i (register K P n ip i rest rl pool)
unfolding register
registered K P n ip i rest rl pool gone =
    let b = state_hash K ip in
    let new : DestState = record { ip_key = ip; rl = rl; tx_rc = rc_init K P n } in
    let held : write pool.states i new i ≡ some new = rw ((==_iff i i).1 refl) refl in
    record {
      finds =
          rw ((==_iff b b).1 refl) (here new (pool.state_bucket b) held ((==_iff ip ip).1 refl));
      taken = gone;
    }

-- The first packet of a new destination (the search for it ends in NULL), with a state in the pool
-- and the lock, gets that state from `iso_state_get`; and after any number of further calls, for packets
-- of whatever destinations, each packet of the same peer, in either direction, gets it too and changes
-- nothing, whichever way the kernel's macro leaves its cursor. (The tables and pools are valid, and each
-- state stands in one place.)
pub state_get_new :
    (K : Kernel) (P : Params) (n : ℕ) (skb : Skb) (rx : Bool) (pool : Pool) (i : ℕ) (rest : List ℕ)
    → IsValid pool
    → IsTidy pool
    → skb.is_ip ≡ true
    → scan K pool.states (peer K rx skb) (pool.state_bucket (state_hash K (peer K rx skb))) null
      ≡ ok null
    → pool.prealloc_states ≡ i ∷ rest
    → (pool' : Pool) × (state_get K P n skb rx true true pool ≡ ok (entry i, pool'))
      × ((later : Pool) (m : ℕ) (next : Skb) (direction create locked : Bool)
          → Calls K P pool' later
          → next.is_ip ≡ true
          → peer K direction next ≡ peer K rx skb
          → state_get K P m next direction create locked later ≡ ok (entry i, later))
unfolding refill_low
state_get_new K P n skb rx pool i rest v tidy ip missing e =
    let ((st, held), frees) = rw e at v.free_states in
    let key = peer K rx skb in
    let (rl, pool1, run, picked, fate) = pick_rl_ok K key pool v in
    let taken = register K P n key i rest rl pool1 in
    let pool' = (refill_low (entry i, taken)).1 in
    let got =
      state_get-search K P n skb rx true true pool null ip missing
      ∙ get_found-takes K P n key i rest st rl pool pool1 e held run in
    let (q, pool2, run2, valid) = state_get-IsValid K P n skb rx true true pool v in
    let same_pool : pool2 ≡ pool' = ap (λ (r : Ptr × Pool). r.1) (ok-inj (sym run2 ∙ got)) in
    let stored =
      scheduled-IsStored K key i (entry i) taken
        (registered K P n key i rest rl pool1 (out_of_pool (st, held))) in
    (
      pool',
      got,
      λ later m next direction create locked calls is_ip same_peer.
          let (v', s') = Calls-IsStored key i (subst IsValid same_pool valid) stored calls in
          stored-found K P m key i next direction create locked later is_ip same_peer s',
    )
  where
    out_of_pool : IsAllocated pool.states i → count i rest ≡ 0
    out_of_pool (st, held) =
        let itself : same i i ≡ 1 = rw ((==_iff i i).1 refl) refl in
        let once : at one pool.states i
            ≡ count i (gather max_buckets 0 pool.state_bucket) + (same i i + count i rest) =
          rw e at (tidy.states.once i) in
        omega (arith, once, itself, ap (measure_of one) held)
