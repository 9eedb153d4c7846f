-- ===== src/Rl/Borrow.antt =====
-- What a queue gets from its limiter's bucket.
use eyeq.Common.{◌+◌, ◌^◌, ◌<◌, ◌≡◌, Bool, true, false, not, arith}
use eyeq.Rl.{Rl, RlQueue, borrow_tokens}
use eyeq.Rl.Dequeue.{replenish}

-- Borrowing moves tokens from the bucket to the queue and makes none up, and keeps the packets and
-- the rate; a queue is told to wait exactly when it has not got the limiter's lock. (The tokens
-- together are below 2^64.)
borrow_conserves :
    (locked exiting : Bool) (rl : Rl) (q : RlQueue)
    → rl.total_tokens + q.tokens < 2 ^ 64
    → let (wait, rl', q') = borrow_tokens locked exiting rl q in
      (rl'.total_tokens + q'.tokens ≡ rl.total_tokens + q.tokens)
      × (wait ≡ not locked)
      × (q'.list ≡ q.list)
      × (rl'.rate ≡ rl.rate)
unfolding borrow_tokens
borrow_conserves locked exiting rl q h = ground arith

-- Whatever the burst size, a queue that gets the lock takes the whole bucket; the next queue is given
-- nothing and is not told to wait. (The tokens are below 2^64.)
borrow_starves :
    (exiting : Bool) (rl : Rl) (q1 q2 : RlQueue)
    → rl.total_tokens + q1.tokens < 2 ^ 64
    → q2.tokens < 2 ^ 64
    → let (wait1, rl1, q1') = borrow_tokens true exiting rl q1 in
      let (wait2, rl2, q2') = borrow_tokens true exiting rl1 q2 in
      (q1'.tokens ≡ q1.tokens + rl.total_tokens)
      × (rl1.total_tokens ≡ 0)
      × (q2'.tokens ≡ q2.tokens)
      × (wait2 ≡ false)
unfolding borrow_tokens
borrow_starves exiting rl q1 q2 h g = ground arith

pub replenish_conserves :
    (locked exiting : Bool) (rl : Rl) (q : RlQueue)
    → rl.total_tokens + q.tokens < 2 ^ 64
    → let (wait, rl', q') = replenish locked exiting rl q in
      (rl'.total_tokens + q'.tokens ≡ rl.total_tokens + q.tokens)
      × (q'.list ≡ q.list)
      × (q'.bytes_enqueued ≡ q.bytes_enqueued)
      × (q'.bytes_xmit ≡ q.bytes_xmit)
      × (rl'.queue ≡ rl.queue)
unfolding replenish borrow_tokens
replenish_conserves locked exiting rl q h = ground arith
