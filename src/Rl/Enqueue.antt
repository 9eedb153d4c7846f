-- ===== src/Rl/Enqueue.antt =====
-- rl.c: `iso_rl_enqueue` and `iso_rl_has_space_for`.
use eyeq.Common.{
  ℕ, ◌%◌, Bool, not, ◌&&◌, ◌||◌, List, [], ◌∷◌, ◌++◌, ltb, if◌then◌else◌, add32, sub32, add64,
  set_cpu, u32_mod,
}
use eyeq.Common.Int.{ℤ, pos, to_u64, ltb_ℤ, signed32}
use eyeq.Kernel.{Kernel, Skb, Segments, is_err, chain}
use eyeq.Params.{Params}
use eyeq.Rl.{Rl, RlQueue, Verdict, success, drop, error, skb_size, clock}

-- `len` of `iso_rl_enqueue`: the size as `s32`.
abbrev pub s32_len : Skb → ℤ
s32_len pkt = signed32 (skb_size pkt)

-- `__skb_queue_tail` and the byte count.
unfoldable pub queue_tail : Skb → RlQueue → RlQueue
queue_tail pkt q = record q {
  list = q.list ++ (pkt ∷ []);
  bytes_enqueued = add64 q.bytes_enqueued (skb_size pkt);
}

-- The ECN mark of an IP packet that a root limiter queues above the threshold.
unfoldable pub mark : Kernel → Params → Bool → ℕ → Skb → Skb
mark K P txc bytes pkt =
    if not txc && ltb P.tx_mark_thresh bytes && pkt.is_ip
    then record pkt { tos = K.change_dsfield pkt.tos 0 3 }
    else pkt

-- Queueing a whole packet; the mark is set after the packet is counted.
admit : Kernel → Params → Bool → Skb → RlQueue → RlQueue
unfolding queue_tail mark
admit K P txc pkt q = queue_tail (mark K P txc (add64 q.bytes_enqueued (skb_size pkt)) pkt) q

-- `diff`, the excess over the queue's limit, as a word: the sums of `int`s wrap.
abbrev pub excess : Params → Skb → RlQueue → ℕ
excess P pkt q =
    sub32 (add32 (q.bytes_enqueued % u32_mod) (skb_size pkt)) (P.max_queue_len_bytes % u32_mod)

-- `diff > len || diff - len < MIN_PKT_SIZE`
unfoldable pub must_drop : Params → Skb → RlQueue → Bool
must_drop P pkt q =
    ltb_ℤ (s32_len pkt) (signed32 (excess P pkt q))
    || ltb_ℤ (signed32 (sub32 (excess P pkt q) (skb_size pkt))) (pos 600)

-- The branch of `iso_rl_enqueue` for a packet that is not split.
unfoldable pub enqueue_whole : Kernel → Params → Bool → Skb → RlQueue → Verdict × RlQueue
unfolding admit must_drop
enqueue_whole K P txc pkt q =
    if ltb P.max_queue_len_bytes (add64 q.bytes_enqueued (to_u64 (s32_len pkt)))
    then if must_drop P pkt q
      then (drop, q)
      else (success, admit K P txc (K.trim pkt (excess P pkt q)) q)
    else (success, admit K P txc pkt q)

-- The loop over the segments of a packet that is split: what does not fit is freed.
unfoldable pub enqueue_segments : Params → List Skb → RlQueue → RlQueue
enqueue_segments P [] q = q
enqueue_segments P (skb ∷ rest) q =
    enqueue_segments P rest
      (if ltb q.bytes_enqueued P.max_queue_len_bytes then queue_tail skb q else q)

unfoldable pub split_segments : Params → Segments → RlQueue → Verdict × RlQueue
split_segments P is_err q = (error, q)
split_segments P (chain skb rest) q = (success, enqueue_segments P (skb ∷ rest) q)

-- Whether the packet is queued whole.
abbrev pub keeps_whole : Params → Rl → Skb → Bool
keeps_whole P rl pkt =
    ltb P.gso_thresh_rate rl.rate || not (ltb_ℤ (pos P.gso_min_split_bytes) (s32_len pkt))

-- The queue's part of `iso_rl_enqueue`, at the rate after the clock.
unfoldable pub enqueue_at : Kernel → Params → Rl → Skb → RlQueue → Verdict × RlQueue
unfolding split_segments
enqueue_at K P rl pkt q =
    if keeps_whole P rl pkt
    then enqueue_whole K P rl.txc pkt q
    else split_segments P (K.gso_segment pkt) q

-- `iso_rl_enqueue`, with the number of the next reading of the time.
unfoldable pub enqueue : Kernel → Params → ℕ → Rl → Skb → ℕ → Verdict × Rl × ℕ
unfolding clock
enqueue K P n rl pkt cpu =
    let (now, n') = clock K P n rl in
    let (verdict, q) = enqueue_at K P now pkt (now.queue cpu) in
    (verdict, record now { queue = set_cpu now.queue cpu q }, n')

-- `iso_rl_has_space_for`: `len` is `u32`, the sum `u64`.
unfoldable pub has_space_for : Params → Rl → Skb → ℕ → Bool
has_space_for P rl pkt cpu =
    ltb (add64 (rl.queue cpu).bytes_enqueued (skb_size pkt)) P.max_queue_len_bytes
