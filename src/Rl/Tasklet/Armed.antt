-- ===== src/Rl/Tasklet/Armed.antt =====
-- What a call of `iso_rl_dequeue` on the limiter of a class does to the list of the queues that wait.
use eyeq.Common.{
  ℕ, ◌≡◌, refl, ◌∙◌, ◌⊎◌, Bool, true, false, List, [], ◌∷◌, ◌++◌, arith, ap, ltb, Bool-cases, inl,
  inr, ◌==◌, ==_iff,
}
use eyeq.Kernel.{Kernel, Skb, Segments, is_err, chain}
use eyeq.Params.{Params}
use eyeq.Rl.{Rl, RlQueue, RlCb}
use eyeq.Rl.Clock.{queue-clock}
use eyeq.Rl.Dequeue.{
  Sending, may_send, xmit_loop, xmit, charge, peek, send_queue, arm, replenish, finish, start,
  dequeue_root,
}
use eyeq.Rl.Enqueue.{
  queue_tail, enqueue_whole, enqueue_segments, split_segments, enqueue_at, enqueue, keeps_whole,
}
use eyeq.Rl.{borrow_tokens, clock}

pub ==_refl : (n : ℕ) → (n == n) ≡ true
==_refl n = (==_iff n n).1 refl

-- The list before and after, with the queue of the limiter at `i`: either both are as before, or the
-- queue was not on the list and is now its last.
abbrev pub Listing : ℕ → Bool → Bool → List ℕ → List ℕ → Type 0
Listing i active active' ids ids' =
    ((active' ≡ active) × (ids' ≡ ids))
    ⊎ ((active ≡ false) × (active' ≡ true) × (ids' ≡ ids ++ (i ∷ [])))

-- What `iso_rl_dequeue` leaves of a limiter, unless the module exits.
pub record IsArmed (rl rl' : Rl) (cpu : ℕ) (ids ids' : List ℕ) : Type 0 where
  pub listing : Listing rl.id (rl.queue cpu).active (rl'.queue cpu).active ids ids'
  pub held : ((rl'.queue cpu).list ≡ []) ⊎ ((rl'.queue cpu).active ≡ true)
  pub same_id : rl'.id ≡ rl.id
  pub same_txc : rl'.txc ≡ rl.txc

-- A loop leaves the flag alone, and ends with an empty queue or asks for the timer.
pub record Asks (active timeout : Bool) (q : RlQueue) : Type 0 where
  pub same : q.active ≡ active
  pub waits : (timeout ≡ true) ⊎ (q.list ≡ [])

xmit_loop-Asks :
    (P : Params) (pkt : Skb) (rest : List Skb) (s : Sending)
    → s.timeout ≡ true
    → let s' = xmit_loop P pkt rest s in Asks s.q.active s'.timeout s'.q
unfolding xmit_loop xmit charge
xmit_loop-Asks P pkt [] s h = ground arith
xmit_loop-Asks P pkt (next ∷ rest) s h = elim (Bool-cases (may_send P pkt s)) [
  | inl go ↦
      let a = xmit_loop-Asks P next rest (peek next (xmit pkt (next ∷ rest) s)) in
      unfold peek in rw go (a h)
  | inr stop ↦ rw stop (record { same = refl; waits = inl h })
]

send_queue-Asks :
    (P : Params) (xs : List Skb) (s : Sending)
    → s.q.list ≡ xs
    → let s' = send_queue P xs s in Asks s.q.active s'.timeout s'.q
unfolding send_queue
send_queue-Asks P [] s e = record { same = refl; waits = inr e }
send_queue-Asks P (pkt ∷ rest) s e = unfold peek in xmit_loop-Asks P pkt rest _ refl

pub replenish-active :
    (locked exiting : Bool) (rl : Rl) (q : RlQueue)
    → let (wait, rl', q') = replenish locked exiting rl q in
      (q'.active ≡ q.active) × (rl'.id ≡ rl.id) × (rl'.txc ≡ rl.txc)
unfolding replenish borrow_tokens
replenish-active locked exiting rl q = ground arith

-- The code at `timeout` puts a queue that waits on the list, once.
pub arm-Listing :
    (active timeout : Bool) (id : ℕ) (q : RlQueue) (cb : RlCb)
    → Asks active timeout q
    → let (q', cb') = arm timeout false id q cb in
      Listing id active q'.active cb.active_list cb'.active_list
      × ((q'.list ≡ []) ⊎ (q'.active ≡ true))
unfolding arm
arm-Listing active timeout id q cb a = ground arith

finish-IsArmed :
    (cpu : ℕ) (rl rl' : Rl) (cb : RlCb) (s : Sending)
    → rl'.id ≡ rl.id
    → rl'.txc ≡ rl.txc
    → Asks (rl.queue cpu).active s.timeout s.q
    → let r = finish false cpu rl' cb s in IsArmed rl r.rl cpu cb.active_list r.cb.active_list
unfolding finish
finish-IsArmed cpu rl rl' cb s e f a =
    let (listing, held) =
      arm-Listing (rl.queue cpu).active s.timeout rl'.id s.q (record cb { tx_bytes = s.tx_bytes })
        a in
    record {
      listing = rw (← e, ==_refl cpu) listing;
      held = rw (==_refl cpu) held;
      same_id = e;
      same_txc = f;
    }

pub dequeue_root-IsArmed :
    (P : Params) (locked : Bool) (rl : Rl) (cpu : ℕ) (cb : RlCb)
    → let r = dequeue_root P locked false rl cpu cb in
      IsArmed rl r.rl cpu cb.active_list r.cb.active_list
unfolding dequeue_root
dequeue_root-IsArmed P locked rl cpu cb =
    let (active, same_id, same_txc) = replenish-active locked false rl (rl.queue cpu) in
    let got = replenish locked false rl (rl.queue cpu) in
    elim (Bool-cases got.0) [
      | inl wait ↦ rw wait (
          finish-IsArmed cpu rl got.1 cb (start got.2 cb true) same_id same_txc
            (record { same = active; waits = inl refl }))
      | inr go ↦
          let a = send_queue-Asks P got.2.list (start got.2 cb false) refl in
          rw go (
            finish-IsArmed cpu rl got.1 cb _ same_id same_txc
              (record { same = a.same ∙ active; waits = a.waits }))
    ]

-- `iso_rl_enqueue` does not touch the list.
enqueue_segments-active :
    (P : Params) (xs : List Skb) (q : RlQueue) → (enqueue_segments P xs q).active ≡ q.active
unfolding enqueue_segments queue_tail
enqueue_segments-active P [] q = refl
enqueue_segments-active P (x ∷ xs) q =
    elim (Bool-cases (ltb q.bytes_enqueued P.max_queue_len_bytes)) [
      | inl fits ↦ rw (fits, enqueue_segments) (enqueue_segments-active P xs (queue_tail x q))
      | inr full ↦ rw (full, enqueue_segments) (enqueue_segments-active P xs q)
    ]

split_segments-active :
    (P : Params) (segs : Segments) (q : RlQueue) → (split_segments P segs q).1.active ≡ q.active
unfolding split_segments
split_segments-active P is_err q = refl
split_segments-active P (chain skb rest) q = enqueue_segments-active P (skb ∷ rest) q

enqueue_whole-active :
    (K : Kernel) (P : Params) (txc : Bool) (pkt : Skb) (q : RlQueue)
    → (enqueue_whole K P txc pkt q).1.active ≡ q.active
unfolding enqueue_whole queue_tail
enqueue_whole-active K P txc pkt q = ground arith

enqueue_at-active :
    (K : Kernel) (P : Params) (rl : Rl) (pkt : Skb) (q : RlQueue)
    → (enqueue_at K P rl pkt q).1.active ≡ q.active
unfolding enqueue_at
enqueue_at-active K P rl pkt q = elim (Bool-cases (keeps_whole P rl pkt)) [
  | inl whole ↦ rw whole (enqueue_whole-active K P rl.txc pkt q)
  | inr parts ↦ rw parts (split_segments-active P (K.gso_segment pkt) q)
]

-- Two limiters with the same name, whose queues on a cpu are both listed or both not.
pub record SameListing (cpu : ℕ) (rl rl' : Rl) : Type 0 where
  pub active : (rl'.queue cpu).active ≡ (rl.queue cpu).active
  pub same_id : rl'.id ≡ rl.id
  pub same_txc : rl'.txc ≡ rl.txc

pub clock-SameListing :
    (K : Kernel) (P : Params) (n cpu : ℕ) (rl : Rl) → SameListing cpu rl (clock K P n rl).0
clock-SameListing K P n cpu rl =
    let (queue, same_txc, same_id) = queue-clock K P n rl in
    record {
      active = ap (λ (q : ℕ → RlQueue). (q cpu).active) queue;
      same_id = same_id;
      same_txc = same_txc;
    }

pub enqueue-SameListing :
    (K : Kernel) (P : Params) (n : ℕ) (rl : Rl) (pkt : Skb) (cpu : ℕ)
    → SameListing cpu rl (enqueue K P n rl pkt cpu).1
unfolding enqueue
enqueue-SameListing K P n rl pkt cpu =
    let c = clock-SameListing K P n cpu rl in
    record {
      active = rw (==_refl cpu) (enqueue_at-active K P _ pkt _ ∙ c.active);
      same_id = c.same_id;
      same_txc = c.same_txc;
    }
