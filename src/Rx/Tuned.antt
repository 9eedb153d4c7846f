-- ===== src/Rx/Tuned.antt =====
-- What `iso_rx` does to the device's statistics and to the queue of a packet: no division by zero.
use native.Mathlib.Nat.{mul-le-mul_left}
use eyeq.Common.{
  ℕ, ◌+◌, ◌*◌, ◌^◌, ◌≤◌, ◌<◌, ◌≡◌, refl, ◌⊎◌, Bool, false, arith, ◌==◌, ltb, leb, Bool-cases, inl,
  inr, ok, set_cpu,
}
use eyeq.Common.Int.{ℤ, to_u64}
use eyeq.Kernel.{Kernel, Skb}
use eyeq.Params.{Params}
use eyeq.Rx.{RxContext, stats_update, sum_stats, count_rx}
use eyeq.Vq.{Vq, count_packet}
use eyeq.Vq.Drain.{
  target_rate, next_feedback, rx_rate_of, assimilate, drained, drain_at, drain, vq_enqueue,
}
use eyeq.Vq.Drain.Feedback.{feedback_bounds}

-- A queue whose target rate is neither 0 nor too large for the drain's words, whatever the device
-- advertises.
pub record IsTuned (P : Params) (vq : Vq) : Type 0 where
  pub weighs : 1 ≤ vq.weight
  pub small : vq.weight * P.vq_drain_rate_mbps < 2 ^ 31
  pub capped : (vq.is_static ≡ false) ⊎ (1 ≤ vq.rate)

-- The counters of a packet do not fault: time has passed.
pub stats_update-kept :
    (K : Kernel) (P : Params) (now : ℕ) (locked : Bool) (cpu : ℕ) (skb : Skb) (rxctx : RxContext)
    → 0 < P.vq_update_interval_us
    → (rxctx' : RxContext) × (stats_update K P now locked cpu skb rxctx ≡ ok rxctx')
      × (rxctx'.rcp_rate ≡ rxctx.rcp_rate)
unfolding stats_update
stats_update-kept K P now locked cpu skb rxctx interval =
    let dt = to_u64 (K.us_delta now rxctx.last_stats_update_time) in
    elim (Bool-cases (ltb dt P.vq_update_interval_us)) [
      | inl early ↦ (count_rx cpu skb rxctx, rw early refl, unfold count_rx in refl)
      | inr due ↦ elim (Bool-cases locked) [
        | inl held ↦
            let passed : (dt == 0) ≡ false = ground (arith, due) in
            rw (due, held, passed) (unfold sum_stats in unfold count_rx in (_, refl, refl))
        | inr busy ↦ (count_rx cpu skb rxctx, rw (due, busy) refl, unfold count_rx in refl)
      ]
    ]

next_feedback_ok :
    (P : Params) (feedback rate : ℕ) (rx : ℤ)
    → 0 < rate
    → rate < 2 ^ 31
    → (f : ℕ) × (next_feedback P feedback rate rx ≡ ok f)
next_feedback_ok P feedback rate rx some_rate small =
    elim (Bool-cases (leb P.vq_drain_rate_mbps P.max_tx_rate)) [
      | inl controlled ↦
          let (f, e, low, high) =
            feedback_bounds P feedback rate rx (ground (arith, controlled)) some_rate small in
          (f, e)
      | inr free ↦ (P.max_tx_rate, unfold next_feedback in rw free refl)
    ]

-- Same weight, cap and class.
record SameShare (vq vq' : Vq) : Type 0 where
  weight : vq'.weight ≡ vq.weight
  is_static : vq'.is_static ≡ vq.is_static
  rate : vq'.rate ≡ vq.rate

target_rate-bounds :
    (P : Params) (vq : Vq) (rcp : ℕ)
    → IsTuned P vq
    → 1 ≤ rcp
    → rcp ≤ P.vq_drain_rate_mbps
    → (0 < target_rate vq rcp) × (target_rate vq rcp < 2 ^ 31)
unfolding target_rate
target_rate-bounds P vq rcp t least most =
    let low = mul-le-mul_left vq.weight least in
    let high = mul-le-mul_left vq.weight most in
    (ground (arith, low, high, t.weighs, t.small, t.capped), ground (arith, high, t.small))

drain-SameShare :
    (K : Kernel) (P : Params) (now rcp : ℕ) (vq : Vq) (dt : ℕ)
    → 0 < target_rate vq rcp
    → target_rate vq rcp < 2 ^ 31
    → (vq' : Vq) × (drain K P now rcp vq dt ≡ ok vq') × SameShare vq vq'
unfolding drain drain_at
drain-SameShare K P now rcp vq dt some_rate small =
    elim (Bool-cases (ltb (to_u64 (K.us_delta now vq.last_update_time)) P.vq_update_interval_us)) [
      | inl early ↦ (vq, rw early refl, record { weight = refl; is_static = refl; rate = refl })
      | inr due ↦
          let rx = rx_rate_of P vq (assimilate K vq.percpu_stats) dt (target_rate vq rcp) in
          let (f, e) =
            next_feedback_ok P vq.feedback_rate (target_rate vq rcp) rx some_rate small in
          (
            drained K P now rcp vq dt f,
            rw (due, e) refl,
            unfold drained in record { weight = refl; is_static = refl; rate = refl },
          )
    ]

SameShare-IsTuned : (P : Params) (vq vq' : Vq) → SameShare vq vq' → IsTuned P vq → IsTuned P vq'
SameShare-IsTuned P vq vq' s t = record {
  weighs = omega (arith, s.weight, t.weighs);
  small = rw s.weight t.small;
  capped = rw (s.is_static, s.rate) t.capped;
}

pub vq_enqueue-IsTuned :
    (K : Kernel) (P : Params) (n : ℕ) (locked : Bool) (cpu : ℕ) (skb : Skb) (rcp : ℕ) (vq : Vq)
    → IsTuned P vq
    → 1 ≤ rcp
    → rcp ≤ P.vq_drain_rate_mbps
    → (vq' : Vq) × (vq_enqueue K P n locked cpu skb rcp vq ≡ ok vq') × IsTuned P vq'
unfolding vq_enqueue
vq_enqueue-IsTuned K P n locked cpu skb rcp vq t least most =
    let counted : Vq = record vq {
      percpu_stats = set_cpu vq.percpu_stats cpu (count_packet skb (vq.percpu_stats cpu));
    } in
    let still : IsTuned P counted = record {
      weighs = t.weighs;
      small = t.small;
      capped = t.capped;
    } in
    let dt = to_u64 (K.us_delta (K.ktime n) vq.last_update_time) in
    let (some_rate, small) = target_rate-bounds P counted rcp still least most in
    let (vq', run, same) = drain-SameShare K P (K.ktime (n + 1)) rcp counted dt some_rate small in
    let t' = SameShare-IsTuned P counted vq' same still in
    elim (Bool-cases (ltb P.vq_update_interval_us dt)) [
      | inl due ↦ elim (Bool-cases locked) [
        | inl held ↦
            rw (due, held, run)
              (_, refl, record { weighs = t'.weighs; small = t'.small; capped = t'.capped })
        | inr busy ↦
            rw (due, busy)
              (_, refl, record { weighs = t.weighs; small = t.small; capped = t.capped })
      ]
      | inr early ↦
          rw early (_, refl, record { weighs = t.weighs; small = t.small; capped = t.capped })
    ]
