-- ===== src/Tx/States.antt =====
-- tx.h and tx.c: the states and limiters that a class keeps for its destinations, in hash tables
-- that are filled from preallocated pools.
pub mod Accounted
pub mod Laws
pub mod Pick
pub mod Valid
pub mod Complete
pub mod Refill
pub mod Stays
pub mod New
use eyeq.Common.{
  ℕ, suc, ◌+◌, ◌-◌, ◌%◌, Bool, true, false, not, ◌||◌, List, [], ◌∷◌, ◌++◌, leb, ◌==◌,
  if◌then◌else◌, Result, fault, ok, ◌>>=◌,
}
use eyeq.Common.Store.{Store, read, write}
use eyeq.Kernel.{Kernel, Skb}
use eyeq.Params.{Params, max_buckets}
use eyeq.Rc.{RcState, rc_init}
use eyeq.Rl.{Rl, rl_init}
use eyeq.Tx.Classes.{set_bucket}

-- A pointer: NULL, an object's address, or what `list_for_each_entry_safe` leaves of an empty list,
-- which is no object but is not NULL.
pub data Ptr : Type 0 where
  null : Ptr
  entry : ℕ → Ptr
  list_head : Ptr

-- `struct iso_per_dest_state`
pub record DestState : Type 0 where
  pub ip_key : ℕ
  pub rl : Ptr
  pub tx_rc : RcState

-- The tables and pools of `struct iso_tx_class`. `scheduled` says whether the allocator's work has
-- been scheduled.
pub record Pool : Type 0 where
  pub rl_bucket : ℕ → List ℕ
  pub state_bucket : ℕ → List ℕ
  pub prealloc_states : List ℕ
  pub prealloc_rls : List ℕ
  pub freelist_count : ℕ
  pub states : Store DestState
  pub rls : Store Rl
  pub scheduled : Bool

abbrev pub state_hash : Kernel → ℕ → ℕ
state_hash K ip = K.jhash ip 0xfacedead % max_buckets

abbrev pub rl_hash : Kernel → ℕ → ℕ
rl_hash K ip = K.jhash ip 0xfaceface % max_buckets

-- The search of `iso_state_get`; the last argument is the cursor.
unfoldable pub scan : Kernel → Store DestState → ℕ → List ℕ → Ptr → Result Ptr
scan K states ip [] cursor = ok (if K.hlist_keeps_cursor then cursor else null)
scan K states ip (i ∷ rest) cursor = read states i >>= λ st.
    if st.ip_key == ip then ok (entry i) else scan K states ip rest (entry i)

-- The search of `iso_pick_rl`, which sets its cursor to NULL when it has met no match.
pub scan_rls : Store Rl → ℕ → List ℕ → Result Ptr
scan_rls rls ip [] = ok null
scan_rls rls ip (i ∷ rest) =
    read rls i >>= λ rl. if rl.ip == ip then ok (entry i) else scan_rls rls ip rest

-- A limiter from the pool.
pub take_rl : Kernel → ℕ → List ℕ → Pool → Result (Ptr × Pool)
take_rl K ip [] pool = ok (list_head, pool)
take_rl K ip (i ∷ rest) pool = read pool.rls i >>= λ rl. ok (
  entry i,
  record pool {
    rls = write pool.rls i (record rl { ip = ip });
    rl_bucket = set_bucket pool.rl_bucket (rl_hash K ip) (i ∷ pool.rl_bucket (rl_hash K ip));
    prealloc_rls = rest;
  },
)

pub pick_found : Kernel → ℕ → Pool → Ptr → Result (Ptr × Pool)
unfolding take_rl
pick_found K ip pool null = take_rl K ip pool.prealloc_rls pool
pick_found K ip pool (entry i) = ok (entry i, pool)
pick_found K ip pool list_head = ok (list_head, pool)

-- `iso_pick_rl`
pub pick_rl : Kernel → ℕ → Pool → Result (Ptr × Pool)
unfolding pick_found scan_rls
pick_rl K ip pool = scan_rls pool.rls ip (pool.rl_bucket (rl_hash K ip)) >>= pick_found K ip pool

-- The state at the head of the pool, given its limiter. (`iso_pick_rl` never returns NULL.)
pub register : Kernel → Params → ℕ → ℕ → ℕ → List ℕ → Ptr → Pool → Pool
register K P n ip i rest rl pool = record pool {
  states = write pool.states i (record { ip_key = ip; rl = rl; tx_rc = rc_init K P n });
  state_bucket =
      set_bucket pool.state_bucket (state_hash K ip) (i ∷ pool.state_bucket (state_hash K ip));
  prealloc_states = rest;
  freelist_count = pool.freelist_count - 1;
}

pub take_state : Kernel → Params → ℕ → ℕ → List ℕ → Pool → Result (Ptr × Pool)
unfolding pick_rl
take_state K P n ip [] pool = ok (list_head, pool)
take_state K P n ip (i ∷ rest) pool = do
  st ← read pool.states i
  (rl, pool') ← pick_rl K ip pool
  ok (entry i, register K P n ip i rest rl pool')

-- The pool is filled again when it runs low.
pub refill_low : Ptr × Pool → Ptr × Pool
refill_low (state, pool) =
    (state, if leb pool.freelist_count 10 then record pool { scheduled = true } else pool)

-- `iso_state_get` past its first search. The second search finds what the first one found.
pub get_found : Kernel → Params → ℕ → ℕ → Bool → Bool → Pool → Ptr → Result (Ptr × Pool)
unfolding take_state refill_low
get_found K P n ip create locked pool null =
    if not create || not locked
    then ok (null, pool)
    else (take_state K P n ip pool.prealloc_states pool >>= λ r. ok (refill_low r))
get_found K P n ip create locked pool (entry i) = ok (entry i, pool)
get_found K P n ip create locked pool list_head = ok (list_head, pool)

-- The address that a packet's state is kept under.
abbrev pub peer : Kernel → Bool → Skb → ℕ
peer K rx skb = K.ntohl (if rx then skb.saddr else skb.daddr)

-- `iso_state_get`; `locked` is the outcome of the trylock, `n` the number of the next reading of
-- the time.
pub state_get : Kernel → Params → ℕ → Skb → Bool → Bool → Bool → Pool → Result (Ptr × Pool)
unfolding scan get_found
state_get K P n skb rx create locked pool =
    if skb.is_ip
    then (scan K pool.states (peer K rx skb) (pool.state_bucket (state_hash K (peer K rx skb))) null
        >>= get_found K P n (peer K rx skb) create locked pool)
    else ok (null, pool)

-- `iso_state_init`, where the statistics are zeroed.
pub state_init : Kernel → Params → ℕ → DestState
state_init K P n = record { ip_key = 0; rl = null; tx_rc = rc_init K P n }

-- `iso_txc_prealloc`: the addresses are those of the states and limiters that the kernel gives
-- before an allocation fails, at most as many as are asked for.
unfoldable pub prealloc : Kernel → Params → ℕ → List (ℕ × ℕ) → Pool → Pool
unfolding state_init
prealloc K P n [] pool = pool
prealloc K P n ((i, j) ∷ rest) pool = prealloc K P (n + 5) rest (record pool {
  states = write pool.states i (state_init K P n);
  rls = write pool.rls j (record (rl_init K P (n + 3) j 0) { txc = true });
  freelist_count = suc pool.freelist_count;
  prealloc_states = pool.prealloc_states ++ (i ∷ []);
  prealloc_rls = pool.prealloc_rls ++ (j ∷ []);
})

-- `iso_txc_allocator`: the work is no longer scheduled, and the pools are filled with at most 32 states
-- and limiters.
unfoldable pub allocator : Kernel → Params → ℕ → List (ℕ × ℕ) → Pool → Pool
allocator K P n adds pool = prealloc K P n adds (record pool { scheduled = false })
