-- ===== src/Rl/Relay/Calls.antt =====
-- A whole call of `iso_rl_dequeue` on the limiter of one destination.
use native.Mathlib.Nat.{mod-eq_of_lt, zero-add}
use eyeq.Common.{
  ℕ, ◌+◌, ◌^◌, ◌<◌, ◌≡◌, refl, ap, sym, ◌⊎◌, ◌∙◌, Bool, true, false, List, [], ◌∷◌, ◌++◌, arith,
  Bool-cases, inl, inr, add64,
}
use eyeq.Kernel.{Kernel, Skb}
use eyeq.Params.{Params}
use eyeq.Rl.{RlQueue, Rl, RlCb, skb_size}
use eyeq.Rl.Borrow.{replenish_conserves}
use eyeq.Rl.Queueing.{bytes_of, IsCounted}
use eyeq.Rl.Dequeue.{replenish}
use eyeq.Rl.Sending.{IsReady, Moved}
use eyeq.Rl.Relay.{
  Moving, peek_next, move_loop, move_queue, serve, wait_for_tokens, dequeue_child, Relayed,
}
use eyeq.Rl.Relay.Handed.{IsHanded, dequeue_child-IsHanded}
use eyeq.Rl.Relay.Laws.{view, move_loop-Moved}

abbrev begin : RlQueue → Rl → ℕ → Moving
begin q parent n = record {
  q = q;
  sum = 0;
  timeout = false;
  moved = [];
  parent = parent;
  reading = n;
}

move_queue-Moved :
    (K : Kernel) (P : Params) (n cpu : ℕ) (parent : Rl) (q : RlQueue) (xs : List Skb)
    → q.list ≡ xs
    → IsCounted q
    → q.tokens < 2 ^ 64
    → bytes_of xs < 2 ^ 64
    → q.bytes_xmit + bytes_of xs < 2 ^ 64
    → Moved P (view (begin q parent n)) (view (move_queue K P cpu xs (begin q parent n)))
unfolding move_queue
move_queue-Moved K P n cpu parent q [] e c t b x = record {
  fifo = refl;
  counted = c;
  paid = refl;
  xmitted = refl;
  reported = refl;
  waits = inr e;
  burst = inl refl;
}
move_queue-Moved K P n cpu parent q (pkt ∷ rest) e c t b x = record {
  fifo = m.fifo;
  counted = m.counted;
  paid = m.paid;
  xmitted = m.xmitted;
  reported = m.reported;
  waits = m.waits;
  burst = m.burst;
}
  where
    peeked : Moving
    peeked = record (peek_next pkt (begin q parent n)) { timeout = true }

    ready : IsReady P pkt rest (view peeked)
    ready =
        let summed : add64 0 (skb_size pkt) ≡ skb_size pkt =
          rw zero-add (mod-eq_of_lt (omega arith)) in
        unfold peek_next in
        record {
          head = e;
          counted = c ∙ ap bytes_of e;
          waiting = refl;
          tokens_fit = t;
          queue_fits = b;
          sum_fits = rw summed b;
          xmit_fits = x;
          tx_fits = omega arith;
          burst = rw summed (omega arith);
        }

    m : Moved P (view peeked) (view (move_loop K P cpu pkt rest peeked))
    m = move_loop-Moved K P cpu pkt rest peeked ready

-- What a call leaves of the child, from `rl` and `cb` to `r`.
pub record IsRelayed (P : Params) (exiting : Bool) (rl : Rl) (cpu : ℕ) (r : Relayed) : Type 0 where
  pub fifo : r.moved ++ (r.rl.queue cpu).list ≡ (rl.queue cpu).list
  pub counted : IsCounted (r.rl.queue cpu)
  pub paid :
      r.rl.total_tokens + (r.rl.queue cpu).tokens + bytes_of r.moved
      ≡ rl.total_tokens + (rl.queue cpu).tokens
  pub xmitted : (r.rl.queue cpu).bytes_xmit ≡ (rl.queue cpu).bytes_xmit + bytes_of r.moved
  pub armed :
      ((r.rl.queue cpu).list ≡ [])
      ⊎ ((exiting ≡ true) ⊎ (((r.rl.queue cpu).active ≡ true) × (r.cb.timer ≡ true)))

record Settled (exiting timeout : Bool) (rl : Rl) (cpu : ℕ) (q : RlQueue) (moved : List Skb)
    (r : Relayed) : Type 0 where
  list : (r.rl.queue cpu).list ≡ q.list
  bytes : (r.rl.queue cpu).bytes_enqueued ≡ q.bytes_enqueued
  tokens : (r.rl.queue cpu).tokens ≡ q.tokens
  xmit : (r.rl.queue cpu).bytes_xmit ≡ q.bytes_xmit
  total : r.rl.total_tokens ≡ rl.total_tokens
  same : r.moved ≡ moved
  armed :
      (timeout ≡ false)
      ⊎ ((exiting ≡ true) ⊎ (((r.rl.queue cpu).active ≡ true) × (r.cb.timer ≡ true)))

serve-Settled :
    (P : Params) (parent_locked exiting : Bool) (rl : Rl) (cpu : ℕ) (cb : RlCb) (s : Moving)
    → Settled exiting s.timeout rl cpu s.q s.moved (serve P parent_locked exiting rl cpu cb s)
unfolding serve
serve-Settled P parent_locked exiting rl cpu cb s = ground arith

wait-Settled :
    (exiting : Bool) (rl : Rl) (cpu : ℕ) (parent : Rl) (cb : RlCb) (q : RlQueue)
    → Settled exiting true rl cpu q [] (wait_for_tokens exiting rl cpu parent cb q)
unfolding wait_for_tokens
wait-Settled exiting rl cpu parent cb q = ground arith

Settled-IsRelayed :
    (P : Params) (exiting timeout : Bool) (rl rl' : Rl) (q q' : RlQueue) (cpu : ℕ)
    (moved : List Skb) (r : Relayed)
    → rl'.total_tokens + q.tokens ≡ rl.total_tokens + (rl.queue cpu).tokens
    → q.list ≡ (rl.queue cpu).list
    → q.bytes_xmit ≡ (rl.queue cpu).bytes_xmit
    → moved ++ q'.list ≡ q.list
    → IsCounted q'
    → q'.tokens + bytes_of moved ≡ q.tokens
    → q'.bytes_xmit ≡ q.bytes_xmit + bytes_of moved
    → ((timeout ≡ true) ⊎ (q'.list ≡ []))
    → Settled exiting timeout rl' cpu q' moved r
    → IsRelayed P exiting rl cpu r
Settled-IsRelayed P exiting timeout rl rl' q q' cpu moved r tokens list xmit fifo c paid x w f =
    record {
      fifo = rw (f.same, f.list) (fifo ∙ list);
      counted = rw (f.list, f.bytes) c;
      paid = rw f.same (omega (arith, f.total, f.tokens, paid));
      xmitted = rw f.same (omega (arith, f.xmit, x));
      armed = ground (arith, f.list, f.armed, w);
    }

-- The counters of the child's queue cannot wrap in the call.
pub record IsMovable (rl : Rl) (cpu : ℕ) : Type 0 where
  pub counted : IsCounted (rl.queue cpu)
  pub tokens_fit : rl.total_tokens + (rl.queue cpu).tokens < 2 ^ 64
  pub queue_fits : bytes_of (rl.queue cpu).list < 2 ^ 64
  pub xmit_fits : (rl.queue cpu).bytes_xmit + bytes_of (rl.queue cpu).list < 2 ^ 64

-- What the child keeps.
child-IsRelayed :
    (K : Kernel) (P : Params) (n : ℕ) (locked parent_locked exiting : Bool) (rl parent : Rl)
    (cpu : ℕ) (cb : RlCb)
    → IsMovable rl cpu
    → IsRelayed P exiting rl cpu (dequeue_child K P n locked parent_locked exiting rl parent cpu cb)
unfolding dequeue_child
child-IsRelayed K P n locked parent_locked exiting rl parent cpu cb v =
    let (tokens, list, bytes, xmit, same) =
      replenish_conserves locked exiting rl (rl.queue cpu) v.tokens_fit in
    let got = replenish locked exiting rl (rl.queue cpu) in
    let counted : IsCounted got.2 = bytes ∙ v.counted ∙ sym (ap bytes_of list) in
    elim (Bool-cases got.0) [
      | inl wait ↦ rw wait (
          Settled-IsRelayed P exiting true rl got.1 got.2 got.2 cpu [] _ tokens list xmit refl
            counted (omega arith) (omega arith) (inl refl)
            (wait-Settled exiting got.1 cpu parent cb got.2))
      | inr go ↦
          let m =
            move_queue-Moved K P n cpu parent got.2 got.2.list refl counted
              (omega (arith, v.tokens_fit, tokens)) (rw list v.queue_fits)
              (rw (list, xmit) v.xmit_fits) in
          let s = move_queue K P cpu got.2.list (begin got.2 parent n) in
          rw go (
            Settled-IsRelayed P exiting s.timeout rl got.1 got.2 s.q cpu s.moved _ tokens list xmit
              m.fifo m.counted (omega (arith, m.paid)) (omega (arith, m.xmitted)) m.waits
              (serve-Settled P parent_locked exiting got.1 cpu cb s))
    ]

-- Every call of `iso_rl_dequeue` on the limiter of a destination whose queue is counted and whose
-- counters cannot wrap: the packets handed to the class's limiter are the first of the queue, in
-- order, and the rest stay queued and counted; each byte handed on is paid with a token and none is
-- made up; `bytes_xmit` grows by what was handed on; and unless the module exits, a queue that
-- still holds packets is marked active with the timer running. The class's limiter is given these
-- packets by `iso_rl_enqueue`, in order, each when it has space for it, and is then served; or, where
-- the trylock of the child fails, nothing is handed on and that limiter is as it was.
pub dequeue_child-IsRelayed :
    (K : Kernel) (P : Params) (n : ℕ) (locked parent_locked exiting : Bool) (rl parent : Rl)
    (cpu : ℕ) (cb : RlCb)
    → IsMovable rl cpu
    → let r = dequeue_child K P n locked parent_locked exiting rl parent cpu cb in
      IsRelayed P exiting rl cpu r × IsHanded K P cpu n locked parent_locked exiting parent cb r
dequeue_child-IsRelayed K P n locked parent_locked exiting rl parent cpu cb v = (
  child-IsRelayed K P n locked parent_locked exiting rl parent cpu cb v,
  dequeue_child-IsHanded K P cpu n locked parent_locked exiting rl parent cb,
)
