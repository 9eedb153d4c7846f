-- ===== src/Rl/Queueing.antt =====
-- What `iso_rl_enqueue` does to a queue.
use mathlib.Core.List.{append_assoc, append-nil}
use eyeq.Common.{
  ℕ, ◌+◌, ◌-◌, ◌%◌, ◌^◌, ◌≤◌, ◌<◌, ◌≡◌, refl, ◌⊎◌, inl, inr, sym, ap, ◌∙◌, le→ltb, Bool-cases, Bool,
  true, false, List, [], ◌∷◌, ◌++◌, arith, ltb, if◌then◌else◌, add64, add64_exact, sum_by,
  sum_by-append, All,
}
use native.Mathlib.Nat.{mod-eq_of_lt}
use eyeq.Common.Int.{pos, signed32, signed32_small, over-or-under}
use eyeq.Kernel.{Kernel, Skb}
use eyeq.Params.{Params}
use eyeq.Rl.{RlQueue, Verdict, success, drop, skb_size}
use eyeq.Rl.Enqueue.{queue_tail, mark, excess, must_drop, enqueue_whole, enqueue_segments}

-- The bytes of a list of packets.
abbrev pub bytes_of : List Skb → ℕ
bytes_of = sum_by skb_size

-- The queue's count is that of its packets.
abbrev pub IsCounted : RlQueue → Type 0
IsCounted q = q.bytes_enqueued ≡ bytes_of q.list

-- The excess, where nothing wraps.
excess_exact :
    (P : Params) (pkt : Skb) (q : RlQueue)
    → P.max_queue_len_bytes < q.bytes_enqueued + skb_size pkt
    → q.bytes_enqueued + skb_size pkt < 2 ^ 31
    → excess P pkt q ≡ q.bytes_enqueued + skb_size pkt - P.max_queue_len_bytes
excess_exact P pkt q over h =
    rw
      (
        mod-eq_of_lt {n = q.bytes_enqueued} {m = 2 ^ 32} (omega arith),
        mod-eq_of_lt {n = P.max_queue_len_bytes} {m = 2 ^ 32} (omega arith),
        mod-eq_of_lt {n = q.bytes_enqueued + skb_size pkt} {m = 2 ^ 32} (omega arith),
      )
      (omega arith)

-- Once the limit is passed the test for a drop holds, as long as the bytes with the packet stay below
-- 2^31, so that no such packet is trimmed.
pub must_drop_always :
    (P : Params) (pkt : Skb) (q : RlQueue)
    → P.max_queue_len_bytes < q.bytes_enqueued + skb_size pkt
    → q.bytes_enqueued + skb_size pkt < 2 ^ 31
    → must_drop P pkt q ≡ true
unfolding must_drop
must_drop_always P pkt q over h =
    rw (excess_exact P pkt q over h, signed32_small (skb_size pkt) (omega arith))
      (over-or-under q.bytes_enqueued (skb_size pkt) P.max_queue_len_bytes 599 over h)

-- A queue with a byte limit and tail drop: what `iso_rl_enqueue` promises for whole packets.
abbrev pub tail_drop : ℕ → (Skb → Skb) → Skb → List Skb → Verdict × List Skb
tail_drop limit mark_it pkt xs =
    if ltb limit (bytes_of xs + skb_size pkt)
    then (drop, xs)
    else (success, xs ++ (mark_it pkt ∷ []))

skb_size-mark :
    (K : Kernel) (P : Params) (txc : Bool) (n : ℕ) (pkt : Skb)
    → skb_size (mark K P txc n pkt) ≡ skb_size pkt
unfolding mark
skb_size-mark K P txc n pkt = ground arith

-- A packet at the tail is counted.
queue_tail-IsCounted :
    (pkt : Skb) (q : RlQueue)
    → IsCounted q
    → q.bytes_enqueued + skb_size pkt < 2 ^ 64
    → IsCounted (queue_tail pkt q)
unfolding queue_tail
queue_tail-IsCounted pkt q c h =
    rw (add64_exact q.bytes_enqueued (skb_size pkt) h)
      (omega (arith, c, sum_by-append skb_size q.list (pkt ∷ [])))

-- Without the dead branch.
pub enqueue_whole_lem :
    (K : Kernel) (P : Params) (txc : Bool) (pkt : Skb) (q : RlQueue)
    → q.bytes_enqueued + skb_size pkt < 2 ^ 31
    → enqueue_whole K P txc pkt q ≡ (
        if ltb P.max_queue_len_bytes (q.bytes_enqueued + skb_size pkt)
        then (drop, q)
        else (success, queue_tail (mark K P txc (q.bytes_enqueued + skb_size pkt) pkt) q))
unfolding enqueue_whole
enqueue_whole_lem K P txc pkt q h =
    elim (Bool-cases (ltb P.max_queue_len_bytes (q.bytes_enqueued + skb_size pkt))) [
      | inl over ↦
          rw (must_drop_always P pkt q (ground (arith, over)) h, words, sized, summed, over) refl
      | inr within ↦ rw (words, sized, summed, within) refl
    ]
  where
    words : signed32 (skb_size pkt) ≡ pos (skb_size pkt)
    words = signed32_small (skb_size pkt) (omega arith)

    sized : skb_size pkt % 2 ^ 64 ≡ skb_size pkt
    sized = mod-eq_of_lt {n = skb_size pkt} {m = 2 ^ 64} (omega arith)

    summed : add64 q.bytes_enqueued (skb_size pkt) ≡ q.bytes_enqueued + skb_size pkt
    summed = add64_exact q.bytes_enqueued (skb_size pkt) (omega arith)

-- For packets that are not split `iso_rl_enqueue` is a queue with tail drop: it refuses what would
-- pass the limit, with the queue unchanged, and appends all else, marked as `mark` says; the count
-- of bytes stays that of the queue. (The count and the packet's size together are below 2^31.)
pub enqueue_whole_refines :
    (K : Kernel) (P : Params) (txc : Bool) (pkt : Skb) (q : RlQueue)
    → IsCounted q
    → q.bytes_enqueued + skb_size pkt < 2 ^ 31
    → let (verdict, q') = enqueue_whole K P txc pkt q in
      ((verdict, q'.list)
        ≡ tail_drop P.max_queue_len_bytes
            (mark K P txc (q.bytes_enqueued + skb_size pkt))
            pkt
            q.list)
      × IsCounted q'
enqueue_whole_refines K P txc pkt q c h =
    rw (enqueue_whole_lem K P txc pkt q h, ← c)
      (by_test (ltb P.max_queue_len_bytes (q.bytes_enqueued + skb_size pkt)))
  where
    marked : Skb
    marked = mark K P txc (q.bytes_enqueued + skb_size pkt) pkt

    listed : (queue_tail marked q).list ≡ q.list ++ (marked ∷ [])
    listed = unfold queue_tail in refl

    counted : IsCounted (queue_tail marked q)
    counted =
        queue_tail-IsCounted marked q c
          (omega (arith, skb_size-mark K P txc (q.bytes_enqueued + skb_size pkt) pkt))

    by_test :
        (full : Bool)
        → let r : Verdict × RlQueue =
            (if full then (drop, q) else (success, queue_tail marked q)) in
          (◌≡◌ {A = Verdict × List Skb}
            (r.0, r.1.list)
            (if full then (drop, q.list) else (success, q.list ++ (marked ∷ []))))
          × IsCounted r.1
    by_test true = (refl, c)
    by_test false = (ap (λ xs. (success, xs)) listed, counted)

-- The count of bytes afterwards.
pub bytes-enqueue_whole :
    (K : Kernel) (P : Params) (txc : Bool) (pkt : Skb) (q : RlQueue)
    → q.bytes_enqueued + skb_size pkt < 2 ^ 31
    → (enqueue_whole K P txc pkt q).1.bytes_enqueued ≡ (
        if ltb P.max_queue_len_bytes (q.bytes_enqueued + skb_size pkt)
        then q.bytes_enqueued
        else q.bytes_enqueued + skb_size pkt)
unfolding queue_tail
bytes-enqueue_whole K P txc pkt q h = rw (enqueue_whole_lem K P txc pkt q h) (
    ground (
      arith,
      skb_size-mark K P txc (q.bytes_enqueued + skb_size pkt) pkt,
      add64_exact q.bytes_enqueued (skb_size pkt) (omega arith),
    ))

-- A queue at its limit takes no segment.
enqueue_segments_full :
    (P : Params) (segs : List Skb) (q : RlQueue)
    → P.max_queue_len_bytes ≤ q.bytes_enqueued
    → enqueue_segments P segs q ≡ q
unfolding enqueue_segments
enqueue_segments_full P [] q h = refl
enqueue_segments_full P (skb ∷ rest) q h =
    rw (le→ltb q.bytes_enqueued P.max_queue_len_bytes h) (enqueue_segments_full P rest q h)

-- A first part of the segments stands at the queue's end, and the rest, if any, met a full queue.
pub record TookPrefix (P : Params) (segs : List Skb) (q q' : RlQueue) : Type 0 where
  pub kept : List Skb
  pub freed : List Skb
  pub split : segs ≡ kept ++ freed
  pub queued : q'.list ≡ q.list ++ kept
  pub full : (freed ≡ []) ⊎ (P.max_queue_len_bytes ≤ q'.bytes_enqueued)
  pub counted : IsCounted q'

module _ (P : Params) (biggest : ℕ) (room : P.max_queue_len_bytes + biggest < 2 ^ 64) where
  pub enqueue_segments_prefix :
      (segs : List Skb) (q : RlQueue)
      → IsCounted q
      → All (λ s. skb_size s ≤ biggest) segs
      → TookPrefix P segs q (enqueue_segments P segs q)
  unfolding enqueue_segments
  enqueue_segments_prefix [] q c small = record {
    kept = [];
    freed = [];
    split = refl;
    queued = sym (append-nil q.list);
    full = inl refl;
    counted = c;
  }
  enqueue_segments_prefix (skb ∷ rest) q c small =
      elim (Bool-cases (ltb q.bytes_enqueued P.max_queue_len_bytes)) [
        | inl below ↦ rw below (
            taken (
              enqueue_segments_prefix rest (queue_tail skb q)
                (queue_tail-IsCounted skb q c (ground (arith, small.0))) small.1))
        | inr full ↦ rw full (refused (ground arith))
      ]
    where
      taken :
          TookPrefix P rest (queue_tail skb q) (enqueue_segments P rest (queue_tail skb q))
          → TookPrefix P (skb ∷ rest) q (enqueue_segments P rest (queue_tail skb q))
      taken t = record {
        kept = skb ∷ t.kept;
        freed = t.freed;
        split = ap (◌∷◌ skb) t.split;
        queued = t.queued ∙ (unfold queue_tail in append_assoc q.list (skb ∷ []) t.kept);
        full = t.full;
        counted = t.counted;
      }

      refused :
          P.max_queue_len_bytes ≤ q.bytes_enqueued
          → TookPrefix P (skb ∷ rest) q (enqueue_segments P rest q)
      refused h = rw (enqueue_segments_full P rest q h) (record {
        kept = [];
        freed = skb ∷ rest;
        split = refl;
        queued = sym (append-nil q.list);
        full = inr h;
        counted = c;
      })

  -- The count passes the limit by less than one segment.
  pub enqueue_segments_bound :
      (segs : List Skb) (q : RlQueue)
      → All (λ s. skb_size s ≤ biggest) segs
      → q.bytes_enqueued < P.max_queue_len_bytes + biggest
      → (enqueue_segments P segs q).bytes_enqueued < P.max_queue_len_bytes + biggest
  unfolding enqueue_segments queue_tail
  enqueue_segments_bound [] q small h = h
  enqueue_segments_bound (skb ∷ rest) q small h =
      enqueue_segments_bound rest _ small.1 (ground (arith, small.0))
