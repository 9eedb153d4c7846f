-- ===== src/Vq.antt =====
-- vq.h and vq.c: a virtual queue measures what one class receives and computes the rate to feed
-- back. `Vq.Drain` models the control step; `Vq.Rates` the static shares.
pub mod Drain
pub mod Rates
pub mod Table
use eyeq.Common.{
  ℕ, ◌+◌, ◌*◌, ◌/◌, ◌%◌, ◌^◌, Bool, true, false, ◌&&◌, List, [], ◌∷◌, ltb, ◌==◌, if◌then◌else◌,
  add32, add64, set_cpu, Percpu,
}
use eyeq.Common.Int.{to_u64}
use eyeq.Kernel.{Kernel, Skb}
use eyeq.Params.{Params}
use eyeq.Rl.{skb_size}

-- `struct iso_vq_stats`
pub record VqStats : Type 0 where
  pub bytes_queued : ℕ
  pub network_marked : ℕ
  pub rx_packets : ℕ
  pub rx_bytes : ℕ
  pub last_feedback_gen_time : ℕ
  pub rx_since_last_feedback : ℕ
  pub rx_marked_since_last_feedback : ℕ

-- `struct iso_vq`
pub record Vq : Type 0 where
  pub enabled : ℕ
  pub is_static : Bool
  pub rate : ℕ
  pub total_bytes_queued : ℕ
  pub feedback_rate : ℕ
  pub rx_rate : ℕ
  pub last_rx_bytes : ℕ
  pub weight : ℕ
  pub alpha : ℕ
  pub last_update_time : ℕ
  pub last_borrow_time : ℕ
  pub percpu_stats : Percpu VqStats
  pub klass : ℕ
  pub refcnt : ℕ

-- One cpu's statistics after `iso_vq_init`, which leaves `last_feedback_gen_time` as allocated.
zero_stats : VqStats
zero_stats = record {
  bytes_queued = 0;
  network_marked = 0;
  rx_packets = 0;
  rx_bytes = 0;
  last_feedback_gen_time = 0;
  rx_since_last_feedback = 0;
  rx_marked_since_last_feedback = 0;
}

-- `iso_vq_init`, where the allocation of the statistics succeeds; the class is set by the caller.
unfoldable pub vq_init : Kernel → Params → ℕ → ℕ → Vq
unfolding zero_stats
vq_init K P n klass = record {
  enabled = 1;
  is_static = false;
  rate = P.min_rfair;
  total_bytes_queued = 0;
  feedback_rate = P.min_rfair;
  rx_rate = 0;
  last_rx_bytes = 0;
  weight = 1;
  alpha = 0;
  last_update_time = K.ktime n;
  last_borrow_time = K.ktime n;
  percpu_stats = λ i. zero_stats;
  klass = klass;
  refcnt = 0;
}

-- `iso_vq_over_limits` returns the `u64` as an `int`; the rates lie far below 2^31.
abbrev pub over_limits : Vq → ℕ
over_limits vq = vq.feedback_rate

-- `iph->tos & 0x3` for both bits set: the mark of a congested router.
abbrev pub is_marked : Skb → Bool
is_marked skb = skb.is_ip && (skb.tos % 4 == 3)

-- The packet counters of `iso_vq_enqueue`.
unfoldable pub count_packet : Skb → VqStats → VqStats
count_packet pkt st =
    let counted = record st {
      rx_since_last_feedback = add32 st.rx_since_last_feedback 1;
      rx_packets = add64 st.rx_packets 1;
    } in
    if is_marked pkt
    then record counted {
      network_marked = add64 st.network_marked 1;
      rx_marked_since_last_feedback = add32 st.rx_marked_since_last_feedback 1;
    }
    else counted

-- The byte counters, which are updated after the drain.
unfoldable pub count_bytes : Skb → VqStats → VqStats
count_bytes pkt st = record st {
  bytes_queued = add64 st.bytes_queued (skb_size pkt);
  rx_bytes = add64 st.rx_bytes (skb_size pkt);
}
