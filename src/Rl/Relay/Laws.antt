-- ===== src/Rl/Relay/Laws.antt =====
-- What moves from a destination's limiter to the class's limiter, and that the latter takes it.

use eyeq.Common.{
  ℕ, ◌+◌, ◌^◌, ◌<◌, ◌≡◌, refl, ◌⊎◌, Bool, true, false, List, [], ◌∷◌, ◌++◌, arith, ltb, Bool-cases,
  inl, inr, add64, add64_exact, sum_by-append,
}
use eyeq.Kernel.{Kernel, Skb, Segments, is_err, chain}
use eyeq.Params.{Params}
use eyeq.Rl.{RlQueue, Rl, success, error, skb_size, clock}
use eyeq.Rl.Clock.{queue-clock}
use eyeq.Rl.Queueing.{bytes_of, enqueue_whole_lem}
use eyeq.Rl.Enqueue.{enqueue, enqueue_at, enqueue_whole, split_segments, has_space_for, keeps_whole}
use eyeq.Rl.Charge.{IsCharged}
use eyeq.Rl.Dequeue.{Sending, charge}
use eyeq.Rl.Sending.{
  IsReady, Moved, Moved-refl, Moved-trans, xmit-Moved, next-IsReady, round-IsCharged,
}
use eyeq.Rl.Relay.{Moving, may_move, move, peek_next, move_loop}

split-accepted :
    (K : Kernel) (P : Params) (pkt : Skb) (segs : Segments) (q : RlQueue)
    → K.gso_segment pkt ≡ segs
    → ((split_segments P segs q).0 ≡ success)
      ⊎ (((split_segments P segs q).0 ≡ error) × (K.gso_segment pkt ≡ is_err))
unfolding split_segments
split-accepted K P pkt is_err q e = inr (refl, e)
split-accepted K P pkt (chain skb rest) q e = inl refl

whole-accepted :
    (K : Kernel) (P : Params) (txc : Bool) (pkt : Skb) (q : RlQueue)
    → ltb (add64 q.bytes_enqueued (skb_size pkt)) P.max_queue_len_bytes ≡ true
    → q.bytes_enqueued + skb_size pkt < 2 ^ 31
    → (enqueue_whole K P txc pkt q).0 ≡ success
whole-accepted K P txc pkt q space b =
    rw (enqueue_whole_lem K P txc pkt q b)
      (ground (arith, space, add64_exact q.bytes_enqueued (skb_size pkt) (omega arith)))

-- A packet for which the parent has space is not dropped there: `iso_rl_enqueue` reports success,
-- or the kernel failed to split the packet. (The caller ignores the verdict. The parent's bytes and
-- the packet are together below 2^31.)
pub relay_accepted :
    (K : Kernel) (P : Params) (n : ℕ) (parent : Rl) (pkt : Skb) (cpu : ℕ)
    → has_space_for P parent pkt cpu ≡ true
    → (parent.queue cpu).bytes_enqueued + skb_size pkt < 2 ^ 31
    → let verdict = (enqueue K P n parent pkt cpu).0 in
      (verdict ≡ success) ⊎ ((verdict ≡ error) × (K.gso_segment pkt ≡ is_err))
unfolding enqueue enqueue_at has_space_for
relay_accepted K P n parent pkt cpu space b =
    rw (queue-clock K P n parent).0 (elim (Bool-cases (keeps_whole P (clock K P n parent).0 pkt)) [
      | inl whole ↦
          rw whole
            (inl (whole-accepted K P (clock K P n parent).0.txc pkt (parent.queue cpu) space b))
      | inr parts ↦ rw parts (split-accepted K P pkt (K.gso_segment pkt) (parent.queue cpu) refl)
    ])

-- The loop's variables as those of a root limiter's loop.
abbrev pub view : Moving → Sending
view s = record {
  q = s.q;
  tx_bytes = bytes_of s.moved;
  sum = s.sum;
  timeout = s.timeout;
  sent = s.moved;
}

module _ (K : Kernel) (P : Params) (cpu : ℕ) where
  moved_total :
      (pkt : Skb) (s : Moving) → bytes_of (s.moved ++ (pkt ∷ [])) ≡ bytes_of s.moved + skb_size pkt
  moved_total pkt s = omega (arith, sum_by-append skb_size s.moved (pkt ∷ []))

  stopped-Moved :
      (pkt : Skb) (rest : List Skb) (s : Moving)
      → IsReady P pkt rest (view s)
      → Moved P (view s) (view s)
  stopped-Moved pkt rest s v = Moved-refl P (view s) (rw v.head v.counted) v.waiting

  last-Moved :
      (pkt : Skb) (s : Moving)
      → IsReady P pkt [] (view s)
      → may_move P pkt s ≡ true
      → Moved P (view s) (view (record (move K P cpu pkt [] s) { timeout = false }))
  unfolding move charge
  last-Moved pkt s v go =
      xmit-Moved P pkt [] (view s) _ v go refl refl (round-IsCharged P pkt [] (view s) v go)
        (moved_total pkt s) (inr refl)

  step-Moved :
      (pkt next : Skb) (rest : List Skb) (s : Moving)
      → IsReady P pkt (next ∷ rest) (view s)
      → may_move P pkt s ≡ true
      → Moved P (view s) (view (peek_next next (move K P cpu pkt (next ∷ rest) s)))
        × IsReady P next rest (view (peek_next next (move K P cpu pkt (next ∷ rest) s)))
  unfolding peek_next move charge
  step-Moved pkt next rest s v go =
      let c = round-IsCharged P pkt (next ∷ rest) (view s) v go in
      let after : Sending = view (peek_next next (move K P cpu pkt (next ∷ rest) s)) in
      let paid : IsCharged pkt (bytes_of (next ∷ rest)) s.q after.q = record {
        paid = c.paid;
        left = c.left;
        xmitted = c.xmitted;
      } in
      (
        xmit-Moved P pkt (next ∷ rest) (view s) after v go refl refl paid (moved_total pkt s)
            (inl v.waiting),
        next-IsReady P pkt next rest (view s) after v refl refl paid (moved_total pkt s)
            (add64_exact s.sum (skb_size next) (omega (arith, v.sum_fits))) v.waiting,
      )

  -- The loop moves the first packets of the queue in order, each paid with the child's tokens; what
  -- does not move stays queued and counted, and then a timeout is asked for.
  pub move_loop-Moved :
      (pkt : Skb) (rest : List Skb) (s : Moving)
      → IsReady P pkt rest (view s)
      → Moved P (view s) (view (move_loop K P cpu pkt rest s))
  unfolding move_loop
  move_loop-Moved pkt [] s v = elim (Bool-cases (may_move P pkt s)) [
    | inl go ↦ elim (Bool-cases (has_space_for P s.parent pkt cpu)) [
      | inl space ↦ rw (go, space) (last-Moved pkt s v go)
      | inr full ↦ rw (go, full) (stopped-Moved pkt [] s v)
    ]
    | inr stop ↦ rw stop (stopped-Moved pkt [] s v)
  ]
  move_loop-Moved pkt (next ∷ rest) s v = elim (Bool-cases (may_move P pkt s)) [
    | inl go ↦ elim (Bool-cases (has_space_for P s.parent pkt cpu)) [
      | inl space ↦
          let (moved, ready) = step-Moved pkt next rest s v go in
          rw (go, space) (Moved-trans moved (move_loop-Moved next rest _ ready))
      | inr full ↦ rw (go, full) (stopped-Moved pkt (next ∷ rest) s v)
    ]
    | inr stop ↦ rw stop (stopped-Moved pkt (next ∷ rest) s v)
  ]
