-- ===== src/Vq/Drain.antt =====
-- vq.c: `iso_vq_drain`, the rate control of a virtual queue, and `iso_vq_enqueue`, which runs it.
pub mod Feedback
pub mod Step
use eyeq.Common.{
  ℕ, zero, suc, ◌+◌, ◌-◌, ◌*◌, ◌/◌, ◌%◌, ◌^◌, Bool, true, false, List, [], ◌∷◌, ltb, leb, ◌==◌,
  if◌then◌else◌, add32, add64, sub32, sub64, mul32, mul64, min_of, max_of, sum_by, Percpu, set_cpu,
  Result, fault, ok, ◌>>=◌,
}
use eyeq.Common.Int.{ℤ, pos, negsuc, to_u64, signed32, ltb_ℤ}
use eyeq.Kernel.{Kernel, Skb}
use eyeq.Params.{Params}
use eyeq.Vq.{Vq, VqStats, count_packet, count_bytes}

-- The counters that a drain takes up from the cpus.
pub record Totals : Type 0 where
  pub rx_bytes : ℕ
  pub rx_pkts : ℕ
  pub rx_marked : ℕ

-- The sums are `u64`, `u32` and `u32`; no packets count as one.
unfoldable pub assimilate : Kernel → Percpu VqStats → Totals
assimilate K stats =
    let pkts = sum_by (λ i. (stats i).rx_since_last_feedback) K.online % 2 ^ 32 in
    record {
      rx_bytes = sum_by (λ i. (stats i).rx_bytes) K.online % 2 ^ 64;
      rx_pkts = if pkts == 0 then 1 else pkts;
      rx_marked = sum_by (λ i. (stats i).rx_marked_since_last_feedback) K.online % 2 ^ 32;
    }

pub reset : List ℕ → Percpu VqStats → Percpu VqStats
reset [] stats = stats
reset (i ∷ cpus) stats = reset cpus (
    set_cpu stats i (record (stats i) {
      bytes_queued = 0;
      rx_since_last_feedback = 0;
      rx_marked_since_last_feedback = 0;
    }))

-- The rate that the queue should have.
unfoldable pub target_rate : Vq → ℕ → ℕ
target_rate vq rcp_rate =
    let rate = mul64 vq.weight rcp_rate in if vq.is_static then min_of rate vq.rate else rate

-- `frac`: the marked packets in units of 1/1024, at most 1024.
unfoldable pub ecn_frac : Totals → ℕ
ecn_frac t = min_of 1024 (mul32 t.rx_marked 1024 / t.rx_pkts)

-- `EWMA_G16(old, new)` on `u32`.
unfoldable pub ewma_g16 : ℕ → ℕ → ℕ
ewma_g16 old new = add32 (sub32 (mul32 old 16) old) new / 16

-- `(int)((diff << 3) / dt)`
pub measured : Vq → Totals → ℕ → ℤ
measured vq t dt = signed32 (mul64 (sub64 t.rx_bytes vq.last_rx_bytes) 8 / dt % 2 ^ 32)

-- The addition for ECN marks: the sum is taken in `u64` and converted to `int`.
pub with_marks : Params → ℕ → ℕ → ℤ → ℤ
with_marks P frac dt rx_rate = signed32 (
    add64 (to_u64 rx_rate) (mul32 (mul32 P.ecn_mark_thresh_bytes 8) (1024 + frac) / 1024 / dt)
    % 2 ^ 32)

-- `min_t(int, rx_rate, 3 * rate)`
pub cap_rx_rate : ℕ → ℤ → ℤ
cap_rx_rate rate rx_rate =
    let cap = signed32 (mul64 3 rate % 2 ^ 32) in if ltb_ℤ rx_rate cap then rx_rate else cap

unfoldable pub rx_rate_of : Params → Vq → Totals → ℕ → ℕ → ℤ
unfolding measured with_marks cap_rx_rate
rx_rate_of P vq t dt rate =
    if ecn_frac t == 0
    then measured vq t dt
    else cap_rx_rate rate (with_marks P (ecn_frac t) dt (measured vq t dt))

-- The new feedback rate. `rate2` is `u32`, all else `u64`; a division by zero is a fault.
unfoldable pub next_feedback : Params → ℕ → ℕ → ℤ → Result ℕ
next_feedback P feedback rate rx_rate =
    let rate2 = mul64 rate 2 % 2 ^ 32 in
    let error = sub64 (add64 rate2 rate) (to_u64 rx_rate) in
    if leb P.vq_drain_rate_mbps P.max_tx_rate
    then if rate2 == 0
      then fault
      else ok (max_of P.min_rfair (min_of rate (mul64 feedback error / rate2)))
    else ok P.max_tx_rate

-- What the drain writes, given the new feedback rate.
unfoldable pub drained : Kernel → Params → ℕ → ℕ → Vq → ℕ → ℕ → Vq
drained K P now rcp_rate vq dt feedback =
    let t = assimilate K vq.percpu_stats in
    record vq {
      last_update_time = now;
      percpu_stats = reset K.online vq.percpu_stats;
      alpha = ewma_g16 vq.alpha (ecn_frac t);
      feedback_rate = feedback;
      rx_rate = to_u64 (rx_rate_of P vq t dt (target_rate vq rcp_rate));
      last_rx_bytes = t.rx_bytes;
    }

-- `iso_vq_drain` past its test; `dt` is the caller's measure of the time, `now` the drain's reading.
unfoldable pub drain_at : Kernel → Params → ℕ → ℕ → Vq → ℕ → Result Vq
unfolding drained
drain_at K P now rcp_rate vq dt = do
  let rate = target_rate vq rcp_rate
  let rx_rate = rx_rate_of P vq (assimilate K vq.percpu_stats) dt rate
  feedback ← next_feedback P vq.feedback_rate rate rx_rate
  ok (drained K P now rcp_rate vq dt feedback)

-- `iso_vq_drain`
unfoldable pub drain : Kernel → Params → ℕ → ℕ → Vq → ℕ → Result Vq
drain K P now rcp_rate vq dt =
    if ltb (to_u64 (K.us_delta now vq.last_update_time)) P.vq_update_interval_us
    then ok vq
    else drain_at K P now rcp_rate vq dt

-- `iso_vq_enqueue` on a cpu; `locked` is the outcome of the trylock, and `n` the number of the next
-- reading of the time.
unfoldable pub vq_enqueue : Kernel → Params → ℕ → Bool → ℕ → Skb → ℕ → Vq → Result Vq
vq_enqueue K P n locked cpu pkt rcp_rate vq =
    let counted = record vq {
      percpu_stats = set_cpu vq.percpu_stats cpu (count_packet pkt (vq.percpu_stats cpu));
    } in
    let dt = to_u64 (K.us_delta (K.ktime n) vq.last_update_time) in
    let drained =
      if ltb P.vq_update_interval_us dt
      then if locked then drain K P (K.ktime (n + 1)) rcp_rate counted dt else ok counted
      else ok counted in
    drained >>= λ v.
    ok (record v {
      percpu_stats = set_cpu v.percpu_stats cpu (count_bytes pkt (v.percpu_stats cpu));
    })
