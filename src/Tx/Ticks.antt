-- ===== src/Tx/Ticks.antt =====
-- What `iso_txc_tick` does to the rates of a device and its classes.
use eyeq.Common.{
  ℕ, ◌/◌, ◌%◌, ◌^◌, ◌≤◌, ◌<◌, ◌≡◌, refl, false, arith, ◌==◌, ok, sum_by, All, max_of, mul64, sub64,
}
use eyeq.Common.Store.{Holds, update_all-Updated}
use eyeq.Kernel.{Kernel}
use eyeq.Params.{Params}
use eyeq.Tx.{TxClass, TxContext, tick_class, tick_rate, tick_at, cap_static, accum}
use eyeq.Tx.Shares.{IsValid, kept-IsValid}

-- A class may send at its guarantee at least, or at its cap if that is lower, and at most at the
-- device's rate or its guarantee; a static class at most at its cap.
pub record IsTicked (P : Params) (txc : TxClass) : Type 0 where
  pub least : cap_static txc txc.min_rate ≤ txc.rl.rate
  pub most : txc.rl.rate ≤ max_of txc.min_rate P.max_tx_rate
  pub capped : txc.rl.rate ≤ cap_static txc txc.rl.rate

tick_class-IsTicked :
    (K : Kernel) (P : Params) (rate dt : ℕ) (txc : TxClass)
    → IsTicked P (tick_class K P rate dt txc)
unfolding tick_class
tick_class-IsTicked K P rate dt txc = record {
  least = ground arith;
  most = ground arith;
  capped = ground arith;
}

pub kept-tick_class :
    (K : Kernel) (P : Params) (rate dt : ℕ) (txc : TxClass)
    → ((tick_class K P rate dt txc).weight ≡ txc.weight)
      × ((tick_class K P rate dt txc).klass ≡ txc.klass)
unfolding tick_class
kept-tick_class K P rate dt txc = (refl, refl)

tick_rate-bounds :
    (P : Params) (rate tx_rate : ℕ)
    → (P.min_rfair ≤ tick_rate P rate tx_rate)
      × (tick_rate P rate tx_rate ≤ max_of P.min_rfair P.max_tx_rate)
unfolding tick_rate
tick_rate-bounds P rate tx_rate = (ground arith, ground arith)

-- A tick that is due, in a valid context, where time has passed and the device's rate is not 0,
-- faults nowhere and keeps the context valid; the device's control rate lies between the least rate
-- and the device's rate (or is the least, if that is higher), and every class may send at its
-- guarantee or, if that is lower, its cap.
pub tick_at_lem :
    (K : Kernel) (P : Params) (now dt : ℕ) (context : TxContext)
    → IsValid context
    → 0 < dt
    → 0 < P.max_tx_rate
    → (context' : TxContext) × (tick_at K P now dt context ≡ ok context')
      × IsValid context'
      × (P.min_rfair ≤ context'.rate)
      × (context'.rate ≤ max_of P.min_rfair P.max_tx_rate)
      × All (Holds (IsTicked P) context'.txcs) context'.txc_list
unfolding tick_at accum
tick_at_lem K P now dt context v time some_rate =
    let summed = sum_by (λ x. (context.rlcb x).tx_bytes) K.online % 2 ^ 64 in
    let tx_rate = mul64 (sub64 summed context.tx_bytes) 8 / dt % 2 ^ 32 in
    let rate = tick_rate P context.rate tx_rate in
    let (txcs, run, u) =
      update_all-Updated (tick_class K P rate dt) context.txc_list context.txcs v.allocated in
    let valid = kept-IsValid context txcs v (record {
      alloc = u.alloc;
      weights = u.same (λ txc. txc.weight) (λ txc. (kept-tick_class K P rate dt txc).0);
      classes = u.same (λ txc. txc.klass) (λ txc. (kept-tick_class K P rate dt txc).1);
    }) in
    let some_time : (dt == 0) ≡ false = ground arith in
    let rated : (P.max_tx_rate == 0) ≡ false = ground arith in
    let context' = record context {
      txc_last_update_time = now;
      tx_bytes = summed;
      tx_rate = tx_rate;
      rate = rate;
      txcs = txcs;
    } in
    (
      context',
      rw (some_time, rated, run) refl,
      record { allocated = valid.allocated; total = valid.total },
      (tick_rate-bounds P context.rate tx_rate).0,
      (tick_rate-bounds P context.rate tx_rate).1,
      u.done (IsTicked P) (tick_class-IsTicked K P rate dt),
    )
