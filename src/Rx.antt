-- ===== src/Rx.antt =====
-- rx.h and rx.c: the statistics of a receiving device and the one rate that it advertises to its
-- virtual queues. `Rx.Feedback` models the feedback that it applies and generates, and `Rx.Handler`
-- the handler of a packet; the other children prove.
pub mod Rates
pub mod Feedback
pub mod Handler
pub mod Tuned
pub mod Applied
pub mod Sound
pub mod Exhausted
use eyeq.Common.{
  ℕ, ◌+◌, ◌*◌, ◌/◌, ◌%◌, ◌^◌, Bool, true, false, List, [], ◌∷◌, ltb, ◌==◌, if◌then◌else◌, add32,
  add64, sub32, sub64, mul32, mul64, min_of, max_of, sum_by, Percpu, set_cpu, Result, fault, ok,
}
use eyeq.Common.Int.{to_u64}
use eyeq.Kernel.{Kernel, Skb}
use eyeq.Params.{Params}
use eyeq.Rl.{skb_size}

-- `struct iso_rx_stats`
pub record RxStats : Type 0 where
  pub rx_bytes : ℕ
  pub rx_packets : ℕ

-- The part of `struct iso_rx_context` from `stats` on.
pub record RxContext : Type 0 where
  pub stats : Percpu RxStats
  pub global_stats : RxStats
  pub global_stats_last : RxStats
  pub last_stats_update_time : ℕ
  pub last_rcp_time : ℕ
  pub rcp_rate : ℕ
  pub rx_rate : ℕ

no_packets : RxStats
no_packets = record { rx_bytes = 0; rx_packets = 0 }

-- `iso_rx_init`, as far as these fields go; `n` is the number of the next reading of the time.
unfoldable pub rx_init : Kernel → Params → ℕ → RxContext
unfolding no_packets
rx_init K P n = record {
  stats = λ i. no_packets;
  global_stats = no_packets;
  global_stats_last = no_packets;
  last_stats_update_time = K.ktime n;
  last_rcp_time = K.ktime (n + 1);
  rcp_rate = P.vq_drain_rate_mbps % 2 ^ 32;
  rx_rate = 0;
}

unfoldable pub count_rx : ℕ → Skb → RxContext → RxContext
count_rx cpu skb rxctx =
    let st = rxctx.stats cpu in
    record rxctx {
      stats = set_cpu rxctx.stats cpu (record {
        rx_bytes = add64 st.rx_bytes (skb_size skb);
        rx_packets = add64 st.rx_packets 1;
      });
    }

-- The loop assigns each cpu's packets: the last cpu's stay.
pub last_packets : Percpu RxStats → List ℕ → ℕ → ℕ
last_packets stats [] sum = sum
last_packets stats (i ∷ cpus) sum = last_packets stats cpus (stats i).rx_packets

-- The critical section of `iso_rx_stats_update`; it divides by `dt`.
pub sum_stats : Kernel → ℕ → ℕ → RxContext → Result RxContext
unfolding last_packets
sum_stats K now dt rxctx =
    let bytes = sum_by (λ i. (rxctx.stats i).rx_bytes) K.online % 2 ^ 64 in
    let rx_bytes = sub64 bytes rxctx.global_stats.rx_bytes in
    if dt == 0
    then fault
    else ok (record rxctx {
      last_stats_update_time = now;
      global_stats_last = rxctx.global_stats;
      global_stats = record { rx_bytes = bytes; rx_packets = last_packets rxctx.stats K.online 0 };
      rx_rate = mul64 rx_bytes 8 / dt % 2 ^ 32;
    })

-- `iso_rx_stats_update` on a cpu, at the time of its reading. `locked` is the outcome of the
-- trylock; the test of the time is made again, with the same reading, when the lock is held.
unfoldable pub stats_update : Kernel → Params → ℕ → Bool → ℕ → Skb → RxContext → Result RxContext
unfolding count_rx sum_stats
stats_update K P now locked cpu skb rxctx =
    let counted = count_rx cpu skb rxctx in
    let dt = to_u64 (K.us_delta now rxctx.last_stats_update_time) in
    if ltb dt P.vq_update_interval_us
    then ok counted
    else if locked
    then sum_stats K now dt counted
    else ok counted

-- The new advertised rate; `cap` and `cap2` are `u32`.
pub next_rcp : Params → ℕ → ℕ → ℕ
next_rcp P rcp_rate rx_rate =
    let cap = P.vq_drain_rate_mbps % 2 ^ 32 in
    let cap2 = P.vq_drain_rate_mbps * 2 % 2 ^ 32 in
    min_of P.vq_drain_rate_mbps
      (max_of P.min_rfair (mul64 rcp_rate (sub32 (add32 cap2 cap) rx_rate) / cap2))
    % 2 ^ 32

-- `iso_rx_rcp_update`, likewise.
pub rcp_update : Kernel → Params → ℕ → Bool → RxContext → Result RxContext
unfolding next_rcp
rcp_update K P now locked rxctx =
    if ltb (to_u64 (K.us_delta now rxctx.last_rcp_time)) P.vq_hrcp_us
    then ok rxctx
    else if locked
    then if P.vq_drain_rate_mbps * 2 % 2 ^ 32 == 0
      then fault
      else ok
          (record rxctx { rcp_rate = next_rcp P rxctx.rcp_rate rxctx.rx_rate; last_rcp_time = now })
    else ok rxctx
