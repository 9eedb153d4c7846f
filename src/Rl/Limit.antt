-- ===== src/Rl/Limit.antt =====
-- The invariant of a limiter's queues under `iso_rl_enqueue`: the byte count is that of the packets
-- and passes the limit by less than a segment.
use eyeq.Common.{ℕ, ◌+◌, ◌^◌, ◌≤◌, ◌<◌, Bool, ◌∷◌, arith, All, Bool-cases, inl, inr, ◌==◌}
use eyeq.Kernel.{Kernel, Skb, Segments, is_err, chain}
use eyeq.Params.{Params}
use eyeq.Rl.{RlQueue, Rl, skb_size}
use eyeq.Rl.Enqueue.{enqueue_whole, enqueue_at, enqueue, keeps_whole, split_segments}
use eyeq.Rl.Clock.{queue-clock}
use eyeq.Rl.Queueing.{
  IsCounted, enqueue_whole_refines, enqueue_segments_prefix, enqueue_segments_bound,
  bytes-enqueue_whole,
}

-- No segment is larger than `biggest`.
abbrev pub SegmentsFit : ℕ → Segments → Type 0
SegmentsFit biggest is_err = Unit {0}
SegmentsFit biggest (chain skb rest) = All (λ s. skb_size s ≤ biggest) (skb ∷ rest)

pub record IsBounded (P : Params) (biggest : ℕ) (q : RlQueue) : Type 0 where
  pub counted : IsCounted q
  pub bounded : q.bytes_enqueued < P.max_queue_len_bytes + biggest

module _ (K : Kernel) (P : Params) (biggest : ℕ)
    (room : P.max_queue_len_bytes + biggest < 2 ^ 31) where
  whole-IsBounded :
      (txc : Bool) (pkt : Skb) (q : RlQueue)
      → 0 < biggest
      → P.max_queue_len_bytes + biggest + skb_size pkt ≤ 2 ^ 31
      → IsBounded P biggest q
      → IsBounded P biggest (enqueue_whole K P txc pkt q).1
  whole-IsBounded txc pkt q some_room small v = record {
    counted = (enqueue_whole_refines K P txc pkt q v.counted (omega (arith, v.bounded))).1;
    bounded =
        ground (arith, v.bounded, bytes-enqueue_whole K P txc pkt q (omega (arith, v.bounded)));
  }

  split-IsBounded :
      (segs : Segments) (q : RlQueue)
      → SegmentsFit biggest segs
      → IsBounded P biggest q
      → IsBounded P biggest (split_segments P segs q).1
  unfolding split_segments
  split-IsBounded is_err q fit v = v
  split-IsBounded (chain skb rest) q fit v = record {
    counted =
        (enqueue_segments_prefix P biggest (omega arith) (skb ∷ rest) q v.counted fit).counted;
    bounded = enqueue_segments_bound P biggest (omega arith) (skb ∷ rest) q fit v.bounded;
  }

  enqueue_at-IsBounded :
      (rl : Rl) (pkt : Skb) (q : RlQueue)
      → 0 < biggest
      → P.max_queue_len_bytes + biggest + skb_size pkt ≤ 2 ^ 31
      → SegmentsFit biggest (K.gso_segment pkt)
      → IsBounded P biggest q
      → IsBounded P biggest (enqueue_at K P rl pkt q).1
  unfolding enqueue_at
  enqueue_at-IsBounded rl pkt q some_room small fit v = elim (Bool-cases (keeps_whole P rl pkt)) [
    | inl whole ↦ rw whole (whole-IsBounded rl.txc pkt q some_room small v)
    | inr parts ↦ rw parts (split-IsBounded (K.gso_segment pkt) q fit v)
  ]

  -- `iso_rl_enqueue` keeps every cpu's queue counted, and its bytes below the limit plus one segment.
  -- (No segment of the packet is larger than `biggest`, which is not 0; the limit, a segment and the
  -- packet together are at most 2^31, and the limit and a segment less than that.)
  pub enqueue-IsBounded :
      (n : ℕ) (rl : Rl) (pkt : Skb) (cpu : ℕ)
      → 0 < biggest
      → P.max_queue_len_bytes + biggest + skb_size pkt ≤ 2 ^ 31
      → SegmentsFit biggest (K.gso_segment pkt)
      → ((i : ℕ) → IsBounded P biggest (rl.queue i))
      → (i : ℕ) → IsBounded P biggest ((enqueue K P n rl pkt cpu).1.queue i)
  unfolding enqueue
  enqueue-IsBounded n rl pkt cpu some_room small fit v i =
      rw (queue-clock K P n rl).0 (elim (Bool-cases (i == cpu)) [
        | inl here ↦ rw here (enqueue_at-IsBounded _ pkt (rl.queue cpu) some_room small fit (v cpu))
        | inr there ↦ rw there (v i)
      ])
