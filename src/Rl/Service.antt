-- ===== src/Rl/Service.antt =====
-- A whole call of `iso_rl_dequeue` on a root limiter: order, payment, and the timer.
use native.Mathlib.Nat.{mod-eq_of_lt, zero-add}
use eyeq.Common.{
  ℕ, ◌+◌, ◌*◌, ◌^◌, ◌≤◌, ◌<◌, ◌≡◌, refl, ap, sym, ◌⊎◌, ◌∙◌, Bool, true, false, List, [], ◌∷◌, ◌++◌,
  arith, Bool-cases, inl, inr, add64,
}
use eyeq.Kernel.{Skb}
use eyeq.Params.{Params}
use eyeq.Rl.{RlQueue, Rl, RlCb, skb_size}
use eyeq.Rl.Queueing.{bytes_of, IsCounted}
use eyeq.Rl.Borrow.{replenish_conserves}
use eyeq.Rl.Dequeue.{Sending, peek, send_queue, replenish, Dequeued, start, finish, dequeue_root}
use eyeq.Rl.Sending.{IsReady, Moved, Moved-refl, xmit_loop-Moved}

-- The queue is counted, and no counter can wrap in the call.
pub record IsServable (rl : Rl) (cpu : ℕ) (cb : RlCb) : Type 0 where
  pub counted : IsCounted (rl.queue cpu)
  pub tokens_fit : rl.total_tokens + (rl.queue cpu).tokens < 2 ^ 64
  pub queue_fits : bytes_of (rl.queue cpu).list < 2 ^ 64
  pub xmit_fits : (rl.queue cpu).bytes_xmit + bytes_of (rl.queue cpu).list < 2 ^ 64
  pub tx_fits : cb.tx_bytes + bytes_of (rl.queue cpu).list < 2 ^ 64

send_queue-Moved :
    (P : Params) (xs : List Skb) (s : Sending)
    → s.q.list ≡ xs
    → IsCounted s.q
    → s.sent ≡ []
    → s.sum ≡ 0
    → s.q.tokens < 2 ^ 64
    → bytes_of xs < 2 ^ 64
    → s.q.bytes_xmit + bytes_of xs < 2 ^ 64
    → s.tx_bytes + bytes_of xs < 2 ^ 64
    → Moved P s (send_queue P xs s)
unfolding send_queue
send_queue-Moved P [] s e c n z t b x r = record {
  fifo = refl;
  counted = c;
  paid = refl;
  xmitted = refl;
  reported = refl;
  waits = inr e;
  burst = inl refl;
}
send_queue-Moved P (pkt ∷ rest) s e c n z t b x r =
    let m = xmit_loop-Moved P pkt rest (record (peek pkt s) { timeout = true }) ready in
    record {
      fifo = m.fifo;
      counted = m.counted;
      paid = m.paid;
      xmitted = m.xmitted;
      reported = m.reported;
      waits = m.waits;
      burst = m.burst;
    }
  where
    ready : IsReady P pkt rest (record (peek pkt s) { timeout = true })
    ready =
        let summed : add64 s.sum (skb_size pkt) ≡ skb_size pkt =
          rw (z, zero-add) (mod-eq_of_lt (omega arith)) in
        record {
          head = e;
          counted = c ∙ ap bytes_of e;
          waiting = refl;
          tokens_fit = t;
          queue_fits = b;
          sum_fits = rw summed b;
          xmit_fits = x;
          tx_fits = r;
          burst = rw (summed, n) (omega arith);
        }

-- What a call leaves: from `rl` and `cb` to `r`.
pub record IsServed (P : Params) (exiting : Bool) (rl : Rl) (cpu : ℕ) (cb : RlCb) (r : Dequeued)
    : Type 0 where
  pub fifo : r.sent ++ (r.rl.queue cpu).list ≡ (rl.queue cpu).list
  pub counted : IsCounted (r.rl.queue cpu)
  pub paid :
      r.rl.total_tokens + (r.rl.queue cpu).tokens + bytes_of r.sent
      ≡ rl.total_tokens + (rl.queue cpu).tokens
  pub xmitted : (r.rl.queue cpu).bytes_xmit ≡ (rl.queue cpu).bytes_xmit + bytes_of r.sent
  pub reported : r.cb.tx_bytes ≡ cb.tx_bytes + bytes_of r.sent
  pub burst : bytes_of r.sent ≤ P.min_burst_bytes * 2
  pub armed :
      ((r.rl.queue cpu).list ≡ [])
      ⊎ ((exiting ≡ true) ⊎ (((r.rl.queue cpu).active ≡ true) × (r.cb.timer ≡ true)))

-- `finish` keeps the queue's contents and counters, and sets the timer if the loop wants it.
record Finished (exiting : Bool) (rl : Rl) (cpu : ℕ) (t : Sending) (r : Dequeued) : Type 0 where
  list : (r.rl.queue cpu).list ≡ t.q.list
  bytes : (r.rl.queue cpu).bytes_enqueued ≡ t.q.bytes_enqueued
  tokens : (r.rl.queue cpu).tokens ≡ t.q.tokens
  xmit : (r.rl.queue cpu).bytes_xmit ≡ t.q.bytes_xmit
  total : r.rl.total_tokens ≡ rl.total_tokens
  tx : r.cb.tx_bytes ≡ t.tx_bytes
  sent : r.sent ≡ t.sent
  armed :
      (t.timeout ≡ false)
      ⊎ ((exiting ≡ true) ⊎ (((r.rl.queue cpu).active ≡ true) × (r.cb.timer ≡ true)))

finish-Finished :
    (exiting : Bool) (rl : Rl) (cpu : ℕ) (cb : RlCb) (t : Sending)
    → Finished exiting rl cpu t (finish exiting cpu rl cb t)
unfolding finish
finish-Finished exiting rl cpu cb t = ground arith

finish-IsServed :
    (P : Params) (exiting wait : Bool) (rl rl' : Rl) (q : RlQueue) (cpu : ℕ) (cb : RlCb)
    (t : Sending)
    → rl'.total_tokens + q.tokens ≡ rl.total_tokens + (rl.queue cpu).tokens
    → q.list ≡ (rl.queue cpu).list
    → q.bytes_xmit ≡ (rl.queue cpu).bytes_xmit
    → Moved P (start q cb wait) t
    → IsServed P exiting rl cpu cb (finish exiting cpu rl' cb t)
finish-IsServed P exiting wait rl rl' q cpu cb t tokens list xmit m =
    let f = finish-Finished exiting rl' cpu cb t in
    record {
      fifo = rw (f.sent, f.list) (m.fifo ∙ list);
      counted = rw (f.list, f.bytes) m.counted;
      paid = rw f.sent (omega (arith, f.total, f.tokens, m.paid));
      xmitted = rw f.sent (omega (arith, f.xmit, m.xmitted));
      reported = rw f.sent (omega (arith, f.tx, m.reported));
      burst = rw f.sent (elim m.burst [ inl none_sent ↦ rw none_sent (omega arith) | inr b ↦ b ]);
      armed = ground (arith, f.list, f.armed, m.waits);
    }

-- Every call of `iso_rl_dequeue` on a root limiter whose queue is counted and whose counters cannot
-- wrap: the packets handed to the device are the first of the queue, in order, and the rest stay
-- queued and counted; each byte sent is paid with a token and none is made up; the two byte
-- counters grow by what was sent; a call sends at most twice the least burst; and unless the module
-- exits, a queue that still holds packets is marked active with the timer running, also when the
-- trylock failed.
pub dequeue_root-IsServed :
    (P : Params) (locked exiting : Bool) (rl : Rl) (cpu : ℕ) (cb : RlCb)
    → IsServable rl cpu cb
    → IsServed P exiting rl cpu cb (dequeue_root P locked exiting rl cpu cb)
unfolding dequeue_root
dequeue_root-IsServed P locked exiting rl cpu cb v =
    let (tokens, list, bytes, xmit, same) =
      replenish_conserves locked exiting rl (rl.queue cpu) v.tokens_fit in
    let got = replenish locked exiting rl (rl.queue cpu) in
    elim (Bool-cases got.0) [
      | inl wait ↦ rw wait (
          finish-IsServed P exiting true rl got.1 got.2 cpu cb _ tokens list xmit
            (Moved-refl P (start got.2 cb true) (bytes ∙ v.counted ∙ sym (ap bytes_of list)) refl))
      | inr go ↦ rw go (
          finish-IsServed P exiting false rl got.1 got.2 cpu cb _ tokens list xmit (
            send_queue-Moved P got.2.list (start got.2 cb false) refl
              (bytes ∙ v.counted ∙ sym (ap bytes_of list)) refl refl
              (omega (arith, v.tokens_fit, tokens)) (rw list v.queue_fits)
              (rw (list, xmit) v.xmit_fits) (rw list v.tx_fits)))
    ]
