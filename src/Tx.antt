-- ===== src/Tx.antt =====
-- tx.h and tx.c: the transmit classes of a device and the rates that they share. The classes live
-- in a store, since deletion frees them. `Tx.Classes` models the operations on the classes,
-- `Tx.States` a class's destinations, `Tx.Path` the handler of a packet, and
-- `Tx.Free` the release of a class; the other children prove.
pub mod Classes
pub mod Shares
pub mod Lifetime
pub mod Ticks
pub mod States
pub mod Path
pub mod Kept
pub mod Sound
pub mod Free
pub mod Exit
use eyeq.Common.{
  ℕ, ◌+◌, ◌-◌, ◌*◌, ◌/◌, ◌%◌, ◌^◌, Bool, true, false, List, [], ◌∷◌, Option, ltb, ◌==◌,
  if◌then◌else◌, add32, add64, sub32, sub64, mul32, mul64, min_of, max_of, sum_by, Percpu, Result,
  fault, ok, ◌>>=◌,
}
use eyeq.Common.Int.{to_u64, to_u32, signed32, quot_ℤ}
use eyeq.Common.Store.{Store, update_all}
use eyeq.Kernel.{Kernel}
use eyeq.Params.{Params}
use eyeq.Rl.{Rl, RlCb, rl_accum}

-- `struct iso_tx_class`; `rl` is the limiter of the whole class, `vq` the address of the
-- virtual queue that it is associated with. The class's `weight` is an `int`
-- from 0 to 1024.
pub record TxClass : Type 0 where
  pub klass : ℕ
  pub vq : Option ℕ
  pub rl : Rl
  pub weight : ℕ
  pub active : ℕ
  pub tx_rate : ℕ
  pub tx_rate_smooth : ℕ
  pub min_rate : ℕ
  pub max_rate : ℕ
  pub is_static : Bool

-- `struct iso_tx_context`. The lists hold the addresses of classes, `txcs` the classes themselves.
pub record TxContext : Type 0 where
  pub rlcb : Percpu RlCb
  pub iso_tx_bucket : ℕ → List ℕ
  pub txc_list : List ℕ
  pub txcs : Store TxClass
  pub txc_last_update_time : ℕ
  pub txc_total_weight : ℕ
  pub tx_bytes : ℕ
  pub tx_rate : ℕ
  pub rate : ℕ

-- The cap of a static class.
abbrev pub cap_static : TxClass → ℕ → ℕ
cap_static txc rate = if txc.is_static then min_of txc.max_rate rate else rate

-- The loop's body in `iso_txc_recompute_rates`, with the total weight; the product of two `int`s
-- wraps.
unfoldable pub guarantee : Params → ℕ → TxClass → TxClass
guarantee P total txc =
    let product = signed32 (mul32 txc.weight P.max_tx_rate) in
    let min = to_u32 (quot_ℤ product (signed32 (total % 2 ^ 32))) in
    record txc { min_rate = min; rl = record (txc.rl) { rate = cap_static txc min } }

-- `iso_txc_recompute_rates`
unfoldable pub recompute_rates : Params → TxContext → Result TxContext
recompute_rates P context =
    if context.txc_total_weight == 0
    then ok context
    else update_all (guarantee P context.txc_total_weight) context.txc_list context.txcs >>= λ txcs.
        ok (record context { txcs = txcs })

-- `iso_txctx_accum`
pub accum : Kernel → TxContext → TxContext
accum K context = record context {
  tx_bytes = sum_by (λ i. (context.rlcb i).tx_bytes) K.online % 2 ^ 64;
}

-- The loop's body in `iso_txc_tick`, with the context's new rate; it divides by `dt`.
pub tick_class : Kernel → Params → ℕ → ℕ → TxClass → TxClass
tick_class K P rate dt txc =
    let rl = rl_accum K txc.rl in
    let tx_rate = mul64 (sub64 rl.accum_xmit txc.rl.accum_xmit) 8 / dt % 2 ^ 32 in
    let fair = max_of txc.min_rate (min_of P.max_tx_rate (mul32 rate txc.weight)) in
    record txc {
      tx_rate = tx_rate;
      tx_rate_smooth = add32 (mul32 txc.tx_rate_smooth 15) tx_rate / 16;
      rl = record rl { rate = cap_static txc fair };
    }

-- The weighted RCP of `iso_txc_tick`, in `u32`.
pub tick_rate : Params → ℕ → ℕ → ℕ
tick_rate P rate tx_rate = max_of P.min_rfair (
    min_of P.max_tx_rate
      (mul32 rate (sub32 (3 * P.max_tx_rate % 2 ^ 32) tx_rate) / (2 * P.max_tx_rate)))

-- `iso_txc_tick` with the lock, where the tick is due. Both divisors are tested.
pub tick_at : Kernel → Params → ℕ → ℕ → TxContext → Result TxContext
unfolding accum
tick_at K P now dt context =
    if dt == 0
    then fault
    else if P.max_tx_rate == 0
    then fault
    else let summed = accum K context in
      let tx_rate = mul64 (sub64 summed.tx_bytes context.tx_bytes) 8 / dt % 2 ^ 32 in
      let rate = tick_rate P context.rate tx_rate in
      update_all (tick_class K P rate dt) context.txc_list context.txcs >>= λ txcs.
      ok (record summed { txc_last_update_time = now; tx_rate = tx_rate; rate = rate; txcs = txcs })

-- `iso_txc_tick`; `locked` is the outcome of the trylock.
unfoldable pub tick : Kernel → Params → ℕ → Bool → TxContext → Result TxContext
tick K P now locked context =
    let dt = to_u64 (K.us_delta now context.txc_last_update_time) in
    if ltb dt P.txc_update_interval_us
    then ok context
    else if locked
    then tick_at K P now dt context
    else ok context
