-- ===== src/Rl/Sending.antt =====
-- What a root limiter's `iso_rl_dequeue` sends, and what it leaves behind.
use mathlib.Core.List.{append_assoc}
use eyeq.Common.{
  ◌+◌, ◌*◌, ◌^◌, ◌≤◌, ◌<◌, ◌≡◌, refl, ◌⊎◌, ◌∙◌, true, false, List, [], ◌∷◌, ◌++◌, arith, Bool-cases,
  inl, inr, add64_exact, sum_by-append,
}
use eyeq.Kernel.{Skb}
use eyeq.Params.{Params}
use eyeq.Rl.{skb_size}
use eyeq.Rl.Queueing.{bytes_of, IsCounted}
use eyeq.Rl.Charge.{IsCharged, charge-IsCharged}
use eyeq.Rl.Dequeue.{Sending, may_send, charge, xmit, peek, xmit_loop}

-- The state before a round at `pkt`: it is the queue's first packet, and no counter can wrap.
pub record IsReady (P : Params) (pkt : Skb) (rest : List Skb) (s : Sending) : Type 0 where
  pub head : s.q.list ≡ pkt ∷ rest
  pub counted : s.q.bytes_enqueued ≡ bytes_of (pkt ∷ rest)
  pub waiting : s.timeout ≡ true
  pub tokens_fit : s.q.tokens < 2 ^ 64
  pub queue_fits : bytes_of (pkt ∷ rest) < 2 ^ 64
  pub sum_fits : s.sum + bytes_of rest < 2 ^ 64
  pub xmit_fits : s.q.bytes_xmit + bytes_of (pkt ∷ rest) < 2 ^ 64
  pub tx_fits : s.tx_bytes + bytes_of (pkt ∷ rest) < 2 ^ 64
  pub burst : s.sum ≡ bytes_of s.sent + skb_size pkt

-- From `s` to `t` packets moved from the queue to the wire, each paid for.
pub record Moved (P : Params) (s t : Sending) : Type 0 where
  pub fifo : t.sent ++ t.q.list ≡ s.sent ++ s.q.list
  pub counted : IsCounted t.q
  pub paid : t.q.tokens + bytes_of t.sent ≡ s.q.tokens + bytes_of s.sent
  pub xmitted : t.q.bytes_xmit + bytes_of s.sent ≡ s.q.bytes_xmit + bytes_of t.sent
  pub reported : t.tx_bytes + bytes_of s.sent ≡ s.tx_bytes + bytes_of t.sent
  pub waits : (t.timeout ≡ true) ⊎ (t.q.list ≡ [])
  pub burst : (t.sent ≡ s.sent) ⊎ (bytes_of t.sent ≤ P.min_burst_bytes * 2)

pub Moved-refl : (P : Params) (s : Sending) → IsCounted s.q → s.timeout ≡ true → Moved P s s
Moved-refl P s c w = record {
  fifo = refl;
  counted = c;
  paid = refl;
  xmitted = refl;
  reported = refl;
  waits = inl w;
  burst = inl refl;
}

pub Moved-trans : {P : Params} {s t u : Sending} → Moved P s t → Moved P t u → Moved P s u
Moved-trans {P} {s} {t} {u} a b = record {
  fifo = b.fifo ∙ a.fifo;
  counted = b.counted;
  paid = omega (arith, a.paid, b.paid);
  xmitted = omega (arith, a.xmitted, b.xmitted);
  reported = omega (arith, a.reported, b.reported);
  waits = b.waits;
  burst = ground (arith, a.burst, b.burst);
}

may_send_bounds :
    (P : Params) (pkt : Skb) (s : Sending)
    → may_send P pkt s ≡ true
    → (skb_size pkt ≤ s.q.tokens) × (s.sum ≤ P.min_burst_bytes * 2)
may_send_bounds P pkt s h = ground arith

-- One round: the packet goes from the queue's head to the wire.
pub xmit-Moved :
    (P : Params) (pkt : Skb) (rest : List Skb) (s t : Sending)
    → IsReady P pkt rest s
    → may_send P pkt s ≡ true
    → t.q.list ≡ rest
    → t.sent ≡ s.sent ++ (pkt ∷ [])
    → IsCharged pkt (bytes_of rest) s.q t.q
    → t.tx_bytes ≡ s.tx_bytes + skb_size pkt
    → ((t.timeout ≡ true) ⊎ (t.q.list ≡ []))
    → Moved P s t
xmit-Moved P pkt rest s t v go l e c r w =
    let total : bytes_of t.sent ≡ bytes_of s.sent + skb_size pkt =
      rw e (omega (arith, sum_by-append skb_size s.sent (pkt ∷ []))) in
    record {
      fifo = rw (e, l, v.head) (append_assoc s.sent (pkt ∷ []) rest);
      counted = rw l c.left;
      paid = omega (arith, total, c.paid);
      xmitted = omega (arith, total, c.xmitted);
      reported = omega (arith, total, r);
      waits = w;
      burst = inr (omega (arith, total, v.burst, (may_send_bounds P pkt s go).1));
    }

pub round-IsCharged :
    (P : Params) (pkt : Skb) (rest : List Skb) (s : Sending)
    → IsReady P pkt rest s
    → may_send P pkt s ≡ true
    → IsCharged pkt (bytes_of rest) s.q (charge pkt rest s.q)
round-IsCharged P pkt rest s v go =
    charge-IsCharged pkt rest (bytes_of rest) s.q (may_send_bounds P pkt s go).0 v.tokens_fit
      v.counted v.queue_fits (omega (arith, v.xmit_fits))

-- Where a round leaves more packets, the next can follow.
pub next-IsReady :
    (P : Params) (pkt next : Skb) (rest : List Skb) (s t : Sending)
    → IsReady P pkt (next ∷ rest) s
    → t.q.list ≡ next ∷ rest
    → t.sent ≡ s.sent ++ (pkt ∷ [])
    → IsCharged pkt (bytes_of (next ∷ rest)) s.q t.q
    → t.tx_bytes ≡ s.tx_bytes + skb_size pkt
    → t.sum ≡ s.sum + skb_size next
    → t.timeout ≡ true
    → IsReady P next rest t
next-IsReady P pkt next rest s t v l e c r summed w =
    let total : bytes_of t.sent ≡ bytes_of s.sent + skb_size pkt =
      rw e (omega (arith, sum_by-append skb_size s.sent (pkt ∷ []))) in
    record {
      head = l;
      counted = c.left;
      waiting = w;
      tokens_fit = omega (arith, c.paid, v.tokens_fit);
      queue_fits = omega (arith, v.queue_fits);
      sum_fits = omega (arith, summed, v.sum_fits);
      xmit_fits = omega (arith, c.xmitted, v.xmit_fits);
      tx_fits = omega (arith, r, v.tx_fits);
      burst = omega (arith, total, summed, v.burst);
    }

-- The state after a round at `pkt` that leaves more packets.
after_round : Skb → Skb → List Skb → Sending → Sending
unfolding xmit peek
after_round pkt next rest s = peek next (xmit pkt (next ∷ rest) s)

after_round-IsReady :
    (P : Params) (pkt next : Skb) (rest : List Skb) (s : Sending)
    → IsReady P pkt (next ∷ rest) s
    → may_send P pkt s ≡ true
    → IsReady P next rest (after_round pkt next rest s)
unfolding after_round charge
after_round-IsReady P pkt next rest s v go =
    let c = round-IsCharged P pkt (next ∷ rest) s v go in
    next-IsReady P pkt next rest s (after_round pkt next rest s) v refl refl
      (record { paid = c.paid; left = c.left; xmitted = c.xmitted })
      (add64_exact s.tx_bytes (skb_size pkt) (omega (arith, v.tx_fits)))
      (add64_exact s.sum (skb_size next) (omega (arith, v.sum_fits))) v.waiting

after_round-Moved :
    (P : Params) (pkt next : Skb) (rest : List Skb) (s : Sending)
    → IsReady P pkt (next ∷ rest) s
    → may_send P pkt s ≡ true
    → Moved P s (after_round pkt next rest s)
unfolding after_round charge
after_round-Moved P pkt next rest s v go =
    let c = round-IsCharged P pkt (next ∷ rest) s v go in
    let reported = add64_exact s.tx_bytes (skb_size pkt) (omega (arith, v.tx_fits)) in
    xmit-Moved P pkt (next ∷ rest) s (after_round pkt next rest s) v go refl refl
      (record { paid = c.paid; left = c.left; xmitted = c.xmitted }) reported (inl v.waiting)

last_round-Moved :
    (P : Params) (pkt : Skb) (s : Sending)
    → IsReady P pkt [] s
    → may_send P pkt s ≡ true
    → Moved P s (record (xmit pkt [] s) { timeout = false })
unfolding xmit charge
last_round-Moved P pkt s v go =
    let reported = add64_exact s.tx_bytes (skb_size pkt) (omega (arith, v.tx_fits)) in
    xmit-Moved P pkt [] s (record (xmit pkt [] s) { timeout = false }) v go refl refl
      (round-IsCharged P pkt [] s v go) reported (inr refl)

pub xmit_loop-Moved :
    (P : Params) (pkt : Skb) (rest : List Skb) (s : Sending)
    → IsReady P pkt rest s
    → Moved P s (xmit_loop P pkt rest s)
unfolding xmit_loop after_round
xmit_loop-Moved P pkt [] s v = elim (Bool-cases (may_send P pkt s)) [
  | inl go ↦ rw go (last_round-Moved P pkt s v go)
  | inr stop ↦ rw stop (Moved-refl P s (rw v.head v.counted) v.waiting)
]
xmit_loop-Moved P pkt (next ∷ rest) s v = elim (Bool-cases (may_send P pkt s)) [
  | inl go ↦ rw go (
      Moved-trans (after_round-Moved P pkt next rest s v go) (
        xmit_loop-Moved P next rest (after_round pkt next rest s)
          (after_round-IsReady P pkt next rest s v go)))
  | inr stop ↦ rw stop (Moved-refl P s (rw v.head v.counted) v.waiting)
]
