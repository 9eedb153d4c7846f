-- ===== src/Traffic.antt =====
-- A device over time: packets are sent and received, and the allocator fills the pools of a class, in
-- any order.
pub mod Release
use eyeq.Common.{
  ℕ, ◌+◌, ◌≤◌, ◌<◌, ◌≡◌, refl, sym, ap, ◌∙◌, Bool, true, false, List, [], ◌∷◌, Option, none, some,
  arith, All, All-map, inl, inr, ◌==◌, ==_iff, Result, fault, ok, ok-inj, fault-ne-ok, length,
}
use mathlib.Core.Path.{subst}
use eyeq.Common.Store.{Store, IsAllocated, free}
use eyeq.Kernel.{Kernel, Skb}
use eyeq.Params.{Params}
use eyeq.Rx.Handler.{Device, RxLocks, Received, with_pool, iso_rx}
use eyeq.Rx.Rates.{IsDraining}
use eyeq.Rx.Sound.{IsSound, with_pool-IsSound, iso_rx-IsSound}
use eyeq.Tx.Path.{TxDevice, TxLocks, Sent, iso_tx}
use eyeq.Config.{release}
use eyeq.Tx.{TxClass}
use eyeq.Tx.Free.{free_pool, txc_free}
use eyeq.Tx.Free.Pools.{free_pool-empties}
use eyeq.Vq.{Vq}
use eyeq.Tx.Sound.{IsSound as IsSoundTx, iso_tx-IsSound}
use eyeq.Tx.States.{Pool, allocator}
use eyeq.Tx.States.Complete.{IsComplete}
use eyeq.Tx.States.Refill.{IsFresh, prealloc-IsComplete}

-- The events of a device. Trylocks may fail and packets may be of any kind; the kernel gives the
-- allocator objects that are not in use.
pub data Step (K : Kernel) (P : Params) : Device → Device → Type 0 where
  sending :
      (s : Device) (n : ℕ) (locks : TxLocks) (exiting : Bool) (cpu : ℕ) (skb : Skb) (sent : Sent)
      → iso_tx K P n locks exiting cpu skb s.tx ≡ ok sent
      → Step K P s (record s { tx = sent.device })
  receiving :
      (s : Device) (n : ℕ) (locks : RxLocks) (cpu : ℕ) (skb : Skb) (got : Received)
      → iso_rx K P n locks cpu skb s ≡ ok got
      → Step K P s got.device
  allocating :
      (s : Device) (n c : ℕ) (pool : Pool) (adds : List (ℕ × ℕ))
      → IsAllocated s.tx.context.txcs c
      → s.tx.pools c ≡ some pool
      → IsFresh K P n adds (record pool { scheduled = false })
      → Step K P s (with_pool c (allocator K P n adds pool) s)

pub data Reach (K : Kernel) (P : Params) (s : Device) : Device → Type 0 where
  begins : Reach K P s s
  goes_on : {t u : Device} → Reach K P s t → Step K P t u → Reach K P s u

some-inj : {A : Type 0} {a b : A} → some a ≡ some b → a ≡ b
some-inj e = cc

-- The parameters with which nothing is divided by zero.
pub record IsTunable (P : Params) : Type 0 where
  pub draining : IsDraining P
  pub least : 1 ≤ P.min_rfair
  pub vq_interval : 0 < P.vq_update_interval_us
  pub txc_interval : 0 < P.txc_update_interval_us
  pub rate : 0 < P.max_tx_rate

allocator-IsComplete :
    (K : Kernel) (P : Params) (n : ℕ) (adds : List (ℕ × ℕ)) (pool : Pool)
    → IsFresh K P n adds (record pool { scheduled = false })
    → IsComplete pool
    → IsComplete (allocator K P n adds pool)
unfolding allocator
allocator-IsComplete K P n adds pool fresh c =
    let v = c.valid in
    prealloc-IsComplete K P n adds (record pool { scheduled = false }) fresh
      (record {
        valid = record {
          states_ok = v.states_ok;
          rls_ok = v.rls_ok;
          free_states = v.free_states;
          free_rls = v.free_rls;
          balanced = v.balanced;
          counted = v.counted;
        };
        tidy = record { rls = c.tidy.rls; states = c.tidy.states };
        limited = c.limited;
      })

Step-IsSound :
    {K : Kernel} {P : Params} {s u : Device}
    → IsTunable P
    → IsSound P s
    → Step K P s u
    → IsSound P u
Step-IsSound {K = K} {P = P} p v (sending s n locks exiting cpu skb sent run) =
    let (sent', run', sound) =
      iso_tx-IsSound K P n locks exiting cpu skb s.tx v.sending p.txc_interval p.rate in
    let same : sent' ≡ sent = ok-inj (sym run' ∙ run) in
    record {
      sending = subst (λ (x : Sent). IsSoundTx x.device) same sound;
      queues = v.queues;
      least = v.least;
      most = v.most;
    }
Step-IsSound {K = K} {P = P} p v (receiving s n locks cpu skb got run) =
    elim (iso_rx-IsSound K P n locks cpu skb s v p.draining p.least p.vq_interval) [
      | inl (got', run', sound) ↦
          subst (λ (x : Received). IsSound P x.device) (ok-inj (sym run' ∙ run)) sound
      | inr (stops, out) ↦ absurd (fault-ne-ok (sym stops ∙ run))
    ]
Step-IsSound {K = K} {P = P} p v (allocating s n c pool adds alloc here fresh) =
    let (pool', there, complete) = v.sending.pools c alloc in
    with_pool-IsSound P c (allocator K P n adds pool) s
      (allocator-IsComplete K P n adds pool fresh
        (subst (λ (x : Pool). IsComplete x) (some-inj (sym there ∙ here)) complete))
      v

pub Reach-IsSound :
    {K : Kernel} {P : Params} {s u : Device}
    → IsTunable P
    → IsSound P s
    → Reach K P s u
    → IsSound P u
Reach-IsSound p v begins = v
Reach-IsSound p v (goes_on reached step) = Step-IsSound p (Reach-IsSound p v reached) step
