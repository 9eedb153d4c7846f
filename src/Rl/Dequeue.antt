-- ===== src/Rl/Dequeue.antt =====
-- rl.c: `iso_rl_dequeue`, for the limiter of a whole class (`rl->txc == NULL`) and for a limiter of
-- one destination, which hands its packets to the former.
use eyeq.Common.{
  ℕ, ◌*◌, Bool, true, false, not, ◌&&◌, List, [], ◌∷◌, ◌++◌, ltb, leb, if◌then◌else◌, add64, sub64,
  set_cpu,
}
use eyeq.Kernel.{Skb}
use eyeq.Params.{Params}
use eyeq.Rl.{Rl, RlQueue, RlCb, skb_size, borrow_tokens}

-- The loop's variables; `sent` lists the packets handed to `skb_xmit`, oldest first.
pub record Sending : Type 0 where
  pub q : RlQueue
  pub tx_bytes : ℕ
  pub sum : ℕ
  pub timeout : Bool
  pub sent : List Skb

-- The loop's condition.
abbrev pub may_send : Params → Skb → Sending → Bool
may_send P pkt s = leb (skb_size pkt) s.q.tokens && leb s.sum (P.min_burst_bytes * 2)

-- `__skb_dequeue` and the counters of the queue.
unfoldable pub charge : Skb → List Skb → RlQueue → RlQueue
charge pkt rest q = record q {
  list = rest;
  tokens = sub64 q.tokens (skb_size pkt);
  bytes_enqueued = sub64 q.bytes_enqueued (skb_size pkt);
  bytes_xmit = add64 q.bytes_xmit (skb_size pkt);
}

-- The root limiter sends a packet.
unfoldable pub xmit : Skb → List Skb → Sending → Sending
unfolding charge
xmit pkt rest s = record s {
  q = charge pkt rest s.q;
  tx_bytes = add64 s.tx_bytes (skb_size pkt);
  sent = s.sent ++ (pkt ∷ []);
}

-- `skb_peek` at the next packet.
unfoldable pub peek : Skb → Sending → Sending
peek pkt s = record s {
  q = record (s.q) { first_pkt_size = skb_size pkt };
  sum = add64 s.sum (skb_size pkt);
}

-- The loop of a root limiter over the packets in its queue, the first of which is `pkt`.
unfoldable pub xmit_loop : Params → Skb → List Skb → Sending → Sending
unfolding xmit peek
xmit_loop P pkt [] s = if may_send P pkt s then record (xmit pkt [] s) { timeout = false } else s
xmit_loop P pkt (next ∷ rest) s =
    let more = xmit_loop P next rest (peek next (xmit pkt (next ∷ rest) s)) in
    if may_send P pkt s then more else s

-- From `skb_queue_len` to the end of the loop.
unfoldable pub send_queue : Params → List Skb → Sending → Sending
unfolding xmit_loop
send_queue P [] s = s
send_queue P (pkt ∷ rest) s = xmit_loop P pkt rest (record (peek pkt s) { timeout = true })

-- The code at the label `timeout`: wait for the timer.
unfoldable pub arm : Bool → Bool → ℕ → RlQueue → RlCb → RlQueue × RlCb
arm timeout exiting id q cb =
    if timeout && not exiting
    then (
      record q { active = true },
      record cb {
        active_list = (if q.active then cb.active_list else cb.active_list ++ (id ∷ []));
        timer = true;
      },
    )
    else (q, cb)

-- The borrowing before the loop: whether to wait at once.
unfoldable pub replenish : Bool → Bool → Rl → RlQueue → Bool × Rl × RlQueue
unfolding borrow_tokens
replenish locked exiting rl q =
    if ltb q.tokens q.first_pkt_size then borrow_tokens locked exiting rl q else (false, rl, q)

pub record Dequeued : Type 0 where
  pub rl : Rl
  pub cb : RlCb
  pub sum : ℕ
  pub sent : List Skb

unfoldable pub finish : Bool → ℕ → Rl → RlCb → Sending → Dequeued
unfolding arm
finish exiting cpu rl cb s =
    let (q, cb') = arm s.timeout exiting rl.id s.q (record cb { tx_bytes = s.tx_bytes }) in
    record {
      rl = record rl { queue = set_cpu rl.queue cpu q };
      cb = cb';
      sum = s.sum;
      sent = s.sent;
    }

abbrev pub start : RlQueue → RlCb → Bool → Sending
start q cb timeout = record { q = q; tx_bytes = cb.tx_bytes; sum = 0; timeout = timeout; sent = [] }

-- `iso_rl_dequeue` where `rl->txc == NULL`.
unfoldable pub dequeue_root : Params → Bool → Bool → Rl → ℕ → RlCb → Dequeued
dequeue_root P locked exiting rl cpu cb =
    let (wait, rl', q) = replenish locked exiting rl (rl.queue cpu) in
    if wait
    then finish exiting cpu rl' cb (start q cb true)
    else finish exiting cpu rl' cb (send_queue P q.list (start q cb false))
