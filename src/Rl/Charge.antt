-- ===== src/Rl/Charge.antt =====
-- The counters of a queue when its first packet leaves, where none of them can wrap.
use eyeq.Common.{ℕ, ◌+◌, ◌^◌, ◌≤◌, ◌<◌, ◌≡◌, List, arith}
use eyeq.Kernel.{Skb}
use eyeq.Rl.{RlQueue, skb_size}
use eyeq.Rl.Dequeue.{charge}

pub record IsCharged (pkt : Skb) (bytes : ℕ) (q q' : RlQueue) : Type 0 where
  pub paid : q'.tokens + skb_size pkt ≡ q.tokens
  pub left : q'.bytes_enqueued ≡ bytes
  pub xmitted : q'.bytes_xmit ≡ q.bytes_xmit + skb_size pkt

pub charge-IsCharged :
    (pkt : Skb) (rest : List Skb) (bytes : ℕ) (q : RlQueue)
    → skb_size pkt ≤ q.tokens
    → q.tokens < 2 ^ 64
    → q.bytes_enqueued ≡ skb_size pkt + bytes
    → skb_size pkt + bytes < 2 ^ 64
    → q.bytes_xmit + skb_size pkt < 2 ^ 64
    → IsCharged pkt bytes q (charge pkt rest q)
unfolding charge
charge-IsCharged pkt rest bytes q h g e f x = record {
  paid = omega arith;
  left = omega arith;
  xmitted = omega arith;
}
