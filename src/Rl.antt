-- ===== src/Rl.antt =====
-- rl.h and rl.c: the state of a rate limiter, its token bucket, and what a queue borrows from it.
-- `Rl.Enqueue`, `Rl.Dequeue` and `Rl.Relay` model the packet path, and `Rl.Tasklet` the tasklet; the
-- other children prove.
pub mod Enqueue
pub mod Dequeue
pub mod Clock
pub mod Borrow
pub mod Queueing
pub mod Limit
pub mod Charge
pub mod Sending
pub mod Service
pub mod Relay
pub mod Tasklet
use eyeq.Common.{
  ℕ, ◌+◌, ◌*◌, ◌/◌, ◌%◌, ◌^◌, Bool, true, false, ◌&&◌, List, [], ◌∷◌, ◌++◌, ltb, leb, if◌then◌else◌,
  u32_mod, add64, sub64, mul32, mul64, min_of, max_of, sum_by, Percpu,
}
use eyeq.Common.Int.{pos, to_u64, ltb_ℤ}
use eyeq.Kernel.{Kernel, Skb, eth_hlen}
use eyeq.Params.{Params, idle_timeout_us, idle_rate}

-- `enum iso_verdict`
pub data Verdict : Type 0 where
  success drop pass error : Verdict

-- `struct iso_rl_queue`: the queue of one cpu. `active` is `!list_empty(&q->active_list)`.
pub record RlQueue : Type 0 where
  pub list : List Skb
  pub first_pkt_size : ℕ
  pub bytes_enqueued : ℕ
  pub bytes_xmit : ℕ
  pub feedback_backlog : ℕ
  pub tokens : ℕ
  pub cpu : ℕ
  pub active : Bool

-- `struct iso_rl`. `id` stands for its address, and `txc` says whether `rl->txc` is set.
pub record Rl : Type 0 where
  pub id : ℕ
  pub rate : ℕ
  pub ip : ℕ
  pub total_tokens : ℕ
  pub accum_xmit : ℕ
  pub accum_enqueued : ℕ
  pub last_update_time : ℕ
  pub last_rate_update_time : ℕ
  pub queue : Percpu RlQueue
  pub txc : Bool

-- `struct iso_rl_cb`: the control block of one cpu. `timer` says whether the hrtimer is active, and
-- `active_list` holds the ids of the limiters whose queue waits for it.
pub record RlCb : Type 0 where
  pub active_list : List ℕ
  pub timer : Bool
  pub last : ℕ
  pub avg_us : ℕ
  pub cpu : ℕ
  pub tx_bytes : ℕ

abbrev pub skb_size : Skb → ℕ
skb_size skb = (eth_hlen + skb.len) % u32_mod

-- One cpu's part of `iso_rl_prep`, and the tasklet's statistics of the time between its runs.
pub rl_prep : Kernel → ℕ → ℕ → RlCb
rl_prep K n cpu = record {
  active_list = [];
  timer = false;
  last = K.ktime n;
  avg_us = 0;
  cpu = cpu;
  tx_bytes = 0;
}

fresh_queue : ℕ → RlQueue
fresh_queue i = record {
  list = [];
  first_pkt_size = 0;
  bytes_enqueued = 0;
  bytes_xmit = 0;
  feedback_backlog = 0;
  tokens = 0;
  cpu = i;
  active = false;
}

-- `iso_rl_init`. The allocation has not written `ip` before.
unfoldable pub rl_init : Kernel → Params → ℕ → ℕ → ℕ → Rl
unfolding fresh_queue
rl_init K P n id ip = record {
  id = id;
  rate = P.rfair_initial;
  ip = ip;
  total_tokens = 15000;
  accum_xmit = 0;
  accum_enqueued = 0;
  last_update_time = K.ktime n;
  last_rate_update_time = K.ktime (n + 1);
  queue = fresh_queue;
  txc = false;
}

-- The comparison of `iso_rl_should_refill` is signed.
pub should_refill : Kernel → Params → ℕ → Rl → Bool
should_refill K P now rl = ltb_ℤ (pos P.rl_update_interval_us) (K.us_delta now rl.last_update_time)

limit_idle : ℕ → Rl → Rl
limit_idle us rl =
    if ltb idle_timeout_us us && ltb idle_rate rl.rate then record rl { rate = idle_rate } else rl

halve_stale : Kernel → Params → ℕ → Rl → Rl
halve_stale K P now rl =
    if ltb P.rfair_feedback_timeout_us (to_u64 (K.us_delta now rl.last_rate_update_time))
    then record rl { rate = max_of 2 (rl.rate / 2); last_rate_update_time = now }
    else rl

-- The bucket's size at a rate: what passes in a burst, and at least a TSO packet.
pub burst_cap : Params → ℕ → ℕ
burst_cap P rate = max_of (mul32 rate P.max_burst_time_us / 8) P.min_burst_bytes

add_tokens : Params → ℕ → Rl → Rl
unfolding burst_cap
add_tokens P us rl = record rl {
  total_tokens = min_of (burst_cap P rl.rate) (add64 rl.total_tokens (mul64 rl.rate us / 8));
}

-- The part of `iso_rl_clock` that sets the rate; `us` is the time since the last update.
pub adjust_rate : Kernel → Params → ℕ → ℕ → Rl → Rl
unfolding limit_idle halve_stale
adjust_rate K P now us rl = halve_stale K P now (limit_idle us rl)

-- `iso_rl_clock` from its second reading of the time on.
pub refill : Kernel → Params → ℕ → Rl → Rl
unfolding add_tokens
refill K P now rl =
    let us = to_u64 (K.us_delta now rl.last_update_time) in
    record (add_tokens P us (adjust_rate K P now us rl)) { last_update_time = now }

-- `iso_rl_clock`. The number is that of the next reading of the time.
unfoldable pub clock : Kernel → Params → ℕ → Rl → Rl × ℕ
unfolding should_refill
clock K P n rl =
    if should_refill K P (K.ktime n) rl
    then (refill K P (K.ktime (n + 1)) rl, n + 2)
    else (rl, n + 1)

-- `iso_rl_singleq_burst`
unfoldable pub singleq_burst : Params → Rl → ℕ
singleq_burst P rl = mul32 rl.rate P.max_burst_time_us / 8 / P.burst_factor

-- `iso_rl_borrow_tokens`. `locked` is the outcome of the trylock; the result says whether a timeout
-- is needed. The source's first value of `borrow`, the larger of `singleq_burst` and the first
-- packet's size, is overwritten by the second.
pub borrow_tokens : Bool → Bool → Rl → RlQueue → Bool × Rl × RlQueue
borrow_tokens locked exiting rl q =
    let borrow = rl.total_tokens in
    let enough = leb borrow rl.total_tokens in
    let lent = record rl { total_tokens = sub64 rl.total_tokens borrow } in
    let given = record q { tokens = add64 q.tokens borrow } in
    if locked
    then if enough then (false, lent, given) else ((if exiting then false else true), rl, q)
    else (true, rl, q)

-- `iso_rl_accum`
unfoldable pub rl_accum : Kernel → Rl → Rl
rl_accum K rl = record rl {
  accum_xmit = sum_by (λ i. (rl.queue i).bytes_xmit) K.online % 2 ^ 64;
  accum_enqueued = sum_by (λ i. (rl.queue i).bytes_enqueued) K.online % 2 ^ 64;
}
