-- ===== src/Rx/Rates.antt =====
-- The measured rate and the advertised rate of a receiving device.

use eyeq.Common.{
  ℕ, ◌-◌, ◌*◌, ◌/◌, ◌%◌, ◌^◌, ◌≤◌, ◌<◌, ◌≡◌, refl, Bool, false, arith, ltb, ◌==◌, add32, sub32,
  mul64_exact, min_of, max_of, ok, control_grow, control_shrink, Bool-cases, inl, inr,
}
use eyeq.Common.Int.{to_u64}
use eyeq.Kernel.{Kernel}
use eyeq.Params.{Params}
use eyeq.Rx.{RxContext, next_rcp, rcp_update}

-- The advertised rate does not wrap: the drain rate is not 0 and small.
pub record IsDraining (P : Params) : Type 0 where
  pub some : 0 < P.vq_drain_rate_mbps
  pub small : P.vq_drain_rate_mbps < 2 ^ 30
  pub least : P.min_rfair ≤ P.vq_drain_rate_mbps

-- Below three times the drain rate nothing wraps.
pub next_rcp_lem :
    (P : Params) (rcp rx : ℕ)
    → IsDraining P
    → rcp < 2 ^ 32
    → rx ≤ 3 * P.vq_drain_rate_mbps
    → let cap = P.vq_drain_rate_mbps in
      next_rcp P rcp rx ≡ min_of cap (max_of P.min_rfair (rcp * (3 * cap - rx) / (2 * cap)))
unfolding next_rcp
next_rcp_lem P rcp rx d r h =
    let cap = P.vq_drain_rate_mbps in
    let doubled : cap * 2 % 2 ^ 32 ≡ 2 * cap = omega (arith, d.small) in
    let whole : cap % 2 ^ 32 ≡ cap = omega (arith, d.small) in
    let difference : sub32 (add32 (2 * cap) cap) rx ≡ 3 * cap - rx = omega (arith, d.small) in
    rw (doubled, whole, difference, mul64_exact rcp (3 * cap - rx) r (omega (arith, d.small)))
      (ground (arith, d.small))

-- A device that receives no more than its drain rate does not lower the rate that it advertises, if
-- that is at most the drain rate. (The drain rate is from 1 to 2^30 - 1, and not below the least
-- rate.)
rcp_grows :
    (P : Params) (rcp rx : ℕ)
    → IsDraining P
    → rcp ≤ P.vq_drain_rate_mbps
    → rx ≤ P.vq_drain_rate_mbps
    → rcp ≤ next_rcp P rcp rx
rcp_grows P rcp rx d r h =
    rw (next_rcp_lem P rcp rx d (omega (arith, d.small)) (omega arith))
      (ground (arith, control_grow rcp P.vq_drain_rate_mbps rx d.some h))

-- A device that receives from its drain rate to three times it does not raise the rate that it
-- advertises, but for the least rate. (The drain rate is from 1 to 2^30 - 1, and not below the least
-- rate.)
rcp_falls :
    (P : Params) (rcp rx : ℕ)
    → IsDraining P
    → rcp < 2 ^ 32
    → P.vq_drain_rate_mbps ≤ rx
    → rx ≤ 3 * P.vq_drain_rate_mbps
    → next_rcp P rcp rx ≤ max_of P.min_rfair rcp
rcp_falls P rcp rx d r above h =
    rw (next_rcp_lem P rcp rx d r h)
      (ground (arith, control_shrink rcp P.vq_drain_rate_mbps rx above))

next_rcp-bounds :
    (P : Params) (rcp rx : ℕ)
    → IsDraining P
    → (P.min_rfair ≤ next_rcp P rcp rx) × (next_rcp P rcp rx ≤ P.vq_drain_rate_mbps)
unfolding next_rcp
next_rcp-bounds P rcp rx d = (ground (arith, d.small, d.least), ground (arith, d.small))

-- No call of `iso_rx_rcp_update` faults, and the advertised rate stays between the least rate and
-- the drain rate, whatever was received. (The drain rate is from 1 to 2^30 - 1, and not below the
-- least rate.)
pub rcp_update_bounds :
    (K : Kernel) (P : Params) (now : ℕ) (locked : Bool) (rxctx : RxContext)
    → IsDraining P
    → P.min_rfair ≤ rxctx.rcp_rate
    → rxctx.rcp_rate ≤ P.vq_drain_rate_mbps
    → (rxctx' : RxContext) × (rcp_update K P now locked rxctx ≡ ok rxctx')
      × (P.min_rfair ≤ rxctx'.rcp_rate)
      × (rxctx'.rcp_rate ≤ P.vq_drain_rate_mbps)
unfolding rcp_update
rcp_update_bounds K P now locked rxctx d least most =
    let some_cap : (P.vq_drain_rate_mbps * 2 % 2 ^ 32 == 0) ≡ false =
      ground (arith, d.some, d.small) in
    let (low, high) = next_rcp-bounds P rxctx.rcp_rate rxctx.rx_rate d in
    elim (Bool-cases (ltb (to_u64 (K.us_delta now rxctx.last_rcp_time)) P.vq_hrcp_us)) [
      | inl early ↦ (rxctx, rw early refl, least, most)
      | inr due ↦ elim (Bool-cases locked) [
        | inl taken ↦ (
          record rxctx { rcp_rate = next_rcp P rxctx.rcp_rate rxctx.rx_rate; last_rcp_time = now },
          rw (due, taken, some_cap) refl,
          low,
          high,
        )
        | inr busy ↦ (rxctx, rw (due, busy) refl, least, most)
      ]
    ]
