-- ===== src/Tx/Free.antt =====
-- tx.c and rl.c: how a class is released, with its limiters and states (`iso_txc_free`).
pub mod Laws
pub mod Pools
use eyeq.Common.{ℕ, zero, suc, ◌-◌, List, [], ◌∷◌, Option, none, some, Result, ok, ◌>>=◌}
use eyeq.Common.Store.{Store, read, free, update_at}
use eyeq.Config.{release}
use eyeq.Params.{max_buckets}
use eyeq.Rl.{Rl}
use eyeq.Tx.{TxClass, TxContext}
use eyeq.Tx.Path.{TxDevice}
use eyeq.Tx.States.{DestState, Pool}
use eyeq.Vq.{Vq}

-- An object is released: it is read on the way, so one that is not allocated is a fault.
unfoldable pub free_at {ℓ} : {A : Type ℓ} → ℕ → Store A → Result (Store A)
free_at i s = read s i >>= λ a. ok (free s i)

-- `iso_rl_free` and `iso_state_free`. What a limiter's queues hold is not released.
abbrev pub rl_free : ℕ → Store Rl → Result (Store Rl)
rl_free = free_at

abbrev pub state_free : ℕ → Store DestState → Result (Store DestState)
state_free = free_at

module _ {ℓ} {A : Type ℓ} (release_one : ℕ → Store A → Result (Store A)) where
  -- A loop over a list, and one over the buckets from `b` on.
  unfoldable pub free_list : List ℕ → Store A → Result (Store A)
  free_list [] s = ok s
  free_list (i ∷ rest) s = release_one i s >>= free_list rest

  unfoldable pub free_buckets : ℕ → ℕ → (ℕ → List ℕ) → Store A → Result (Store A)
  unfolding free_list
  free_buckets zero b buckets s = ok s
  free_buckets (suc left) b buckets s =
      free_list (buckets b) s >>= free_buckets left (suc b) buckets

abbrev pub no_entries : ℕ → List ℕ
no_entries b = []

-- The loops of `iso_txc_free`: the limiters and states in use, then those in the pools.
unfoldable pub free_pool : Pool → Result Pool
free_pool pool = do
  rls ← free_buckets rl_free max_buckets 0 pool.rl_bucket pool.rls
  states ← free_buckets state_free max_buckets 0 pool.state_bucket pool.states
  rls' ← free_list rl_free pool.prealloc_rls rls
  states' ← free_list state_free pool.prealloc_states states
  ok (record pool {
    rl_bucket = no_entries;
    state_bucket = no_entries;
    prealloc_rls = [];
    prealloc_states = [];
    rls = rls';
    states = states';
  })

-- `iso_txc_free`: what the class holds, its reference, and the class itself.
unfoldable pub txc_free : ℕ → TxDevice → Store Vq → Result (TxDevice × Store Vq)
txc_free c device vqs = do
  txc ← read device.context.txcs c
  pool ← read device.pools c
  pool' ← free_pool pool
  vqs' ← release txc.vq vqs
  let context = device.context
  ok (
    record device {
      context = record context { txcs = free context.txcs c };
      pools = free device.pools c;
    },
    vqs',
  )
