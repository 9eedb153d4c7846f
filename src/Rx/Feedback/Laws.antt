-- ===== src/Rx/Feedback/Laws.antt =====
-- Feedback from the virtual queue that measures to the limiter that it slows down.
use eyeq.Common.{
  ℕ, ◌^◌, ◌≤◌, ◌<◌, ◌≡◌, refl, ap, true, false, some, arith, ltb, ◌==◌, le→leb, le→ltb, ok, ==_iff,
  add32, Bool-cases, inl, inr, set_cpu,
}
use eyeq.Common.Int.{to_u64}
use eyeq.Common.Store.{Holds, write}
use eyeq.Kernel.{Kernel, Skb}
use eyeq.Params.{Params}
use eyeq.Packet.{has_feedback, generate_feedback}
use eyeq.Packet.Feedback.{feedback_roundtrip}
use eyeq.Rl.{Rl, skb_size, success}
use eyeq.Tx.States.{entry, DestState, Pool, peer}
use eyeq.Vq.{Vq}
use eyeq.Rx.Feedback.{with_rate, changed_at, set_limiter, apply_feedback, generate_due}

-- A packet that carries a rate other than 0 sets the limiter that its state points to, to that rate,
-- and stamps both, when the state and the limiter are allocated, the last change is at least the
-- interval ago, the law is in control and the lock is free.
pub feedback_applied :
    (K : Kernel) (P : Params) (now i j rate : ℕ) (skb : Skb) (st : DestState) (rl : Rl)
    (pool : Pool)
    → P.vq_drain_rate_mbps ≤ P.max_tx_rate
    → has_feedback P skb ≡ rate
    → 0 < rate
    → pool.states i ≡ some st
    → st.rl ≡ entry j
    → pool.rls j ≡ some rl
    → P.rfair_decrease_interval_us ≤ to_u64 (K.us_delta now st.tx_rc.last_rfair_change_time)
    → (pool' : Pool) × (apply_feedback K P now true skb i pool ≡ ok pool')
      × Holds (λ rl'. (rl'.rate ≡ rate) × (rl'.last_rate_update_time ≡ now)) pool'.rls j
      × Holds (λ st'. (st'.rl ≡ entry j) × (st'.tx_rc.last_rfair_change_time ≡ now)) pool'.states i
unfolding apply_feedback
feedback_applied K P now i j rate skb st rl pool c fed positive state limiter here due =
    let some_rate : (rate == 0) ≡ false = ground arith in
    let set : set_limiter now rate i st st.rl pool ≡ ok (after) =
      rw limiter (unfold set_limiter in rw here refl) in
    (
      after,
      rw
          (
            state,
            fed,
            some_rate,
            le→leb P.vq_drain_rate_mbps P.max_tx_rate c,
            le→ltb (to_u64 (K.us_delta now st.tx_rc.last_rfair_change_time))
                P.rfair_decrease_interval_us due,
          )
          set,
      (with_rate now rate rl, rw ((==_iff j j).1 refl) refl, (refl, refl)),
      (changed_at now st, rw ((==_iff i i).1 refl) refl, (limiter, refl)),
    )
  where
    after : Pool
    after = record pool {
      rls = write pool.rls j (with_rate now rate rl);
      states = write pool.states i (changed_at now st);
    }

generate_due-lem :
    (K : Kernel) (P : Params) (now later cpu : ℕ) (skb fb : Skb) (vq : Vq)
    → 0 < P.iso_auto_generate_feedback
    → P.feedback_interval_bytes ≤ add32 (vq.percpu_stats cpu).rx_since_last_feedback (skb_size skb)
    → generate_feedback P true vq.feedback_rate skb ≡ some fb
    → (vq' : Vq) × (generate_due K P now later true success cpu skb vq ≡ (some fb, vq'))
      × ((vq'.percpu_stats cpu).rx_since_last_feedback ≡ 0)
unfolding generate_due
generate_due-lem K P now later cpu skb fb vq auto enough made =
    let automatic : (P.iso_auto_generate_feedback == 0) ≡ false = ground arith in
    let bytes = add32 (vq.percpu_stats cpu).rx_since_last_feedback (skb_size skb) in
    let full = le→leb P.feedback_interval_bytes bytes enough in
    let timed =
      ltb P.feedback_interval_us
        (to_u64 (K.us_delta later (vq.percpu_stats cpu).last_feedback_gen_time)) in
    (
      answered,
      elim (Bool-cases timed) [
        | inl old ↦ rw (automatic, old, made) refl
        | inr young ↦ rw (automatic, young, full, made) refl
      ],
      rw ((==_iff cpu cpu).1 refl) refl,
    )
  where
    answered : Vq
    answered = record vq {
      percpu_stats = set_cpu vq.percpu_stats cpu (record (vq.percpu_stats cpu) {
        last_feedback_gen_time = now;
        rx_since_last_feedback = 0;
        network_marked = 0;
      });
    }

-- From end to end: when a virtual queue has received the bytes for it, an IP packet is answered by a
-- feedback packet to its sender, which finds the sender's state under the same address as packets to
-- this receiver; applied to a state, it sets the limiter that the state points to, to the queue's
-- feedback rate. (Feedback is on and there is memory for the packet; the feedback rate is from 1 to
-- 2^16 - 1 and the protocol number below 2^8; the law is in control, the state and the limiter are
-- allocated, the lock is free, and the last change is at least the interval ago.)
pub feedback_reaches :
    (K : Kernel) (P : Params) (now later cpu : ℕ) (skb : Skb) (vq : Vq) (arrival i j : ℕ)
    (st : DestState) (rl : Rl) (pool : Pool)
    → 0 < P.iso_auto_generate_feedback
    → P.feedback_interval_bytes ≤ add32 (vq.percpu_stats cpu).rx_since_last_feedback (skb_size skb)
    → skb.is_ip ≡ true
    → 0 < vq.feedback_rate
    → vq.feedback_rate < 2 ^ 16
    → P.feedback_packet_ipproto < 2 ^ 8
    → P.vq_drain_rate_mbps ≤ P.max_tx_rate
    → pool.states i ≡ some st
    → st.rl ≡ entry j
    → pool.rls j ≡ some rl
    → P.rfair_decrease_interval_us ≤ to_u64 (K.us_delta arrival st.tx_rc.last_rfair_change_time)
    → (fb : Skb) × (vq' : Vq) × (pool' : Pool) × (generate_due K P now later true success cpu skb vq
        ≡ (some fb, vq'))
      × (fb.daddr ≡ skb.saddr)
      × (peer K true fb ≡ peer K false skb)
      × (apply_feedback K P arrival true fb i pool ≡ ok pool')
      × Holds (λ rl'. rl'.rate ≡ vq.feedback_rate) pool'.rls j
feedback_reaches K P now later cpu skb vq arrival i j st rl pool auto enough ip some_rate small
      proto c state limiter here due =
    let (fb, made, fed, marked, known, to_sender, from_here, hw) =
      feedback_roundtrip P vq.feedback_rate skb ip small proto in
    let (vq', answered, cleared) = generate_due-lem K P now later cpu skb fb vq auto enough made in
    let (pool', applied, (rl', there, (same, stamped)), kept) =
      feedback_applied K P arrival i j vq.feedback_rate fb st rl pool c fed some_rate state limiter
        here due in
    (fb, vq', pool', answered, to_sender, ap K.ntohl from_here, applied, (rl', there, same))
