-- ===== src/Rx/Applied.antt =====
-- The feedback that `iso_rx` applies keeps complete pools complete.
use eyeq.Common.{ℕ, ◌≡◌, refl, Bool, not, ◌&&◌, some, ◌==◌, ltb, leb, Bool-cases, inl, inr, ok}
use eyeq.Common.Int.{to_u64}
use eyeq.Common.Store.{IsAllocated, Holds, write, write-IsAllocated}
use eyeq.Kernel.{Kernel, Skb}
use eyeq.Packet.{has_feedback}
use eyeq.Params.{Params}
use eyeq.Rx.Feedback.{with_rate, changed_at, set_limiter, apply_feedback}
use eyeq.Tx.States.{Ptr, null, entry, list_head, DestState, Pool}
use eyeq.Tx.States.Complete.{HasRl, IsComplete}
use eyeq.Tx.States.Refill.{write_rl-IsComplete, write_state-IsComplete}

set_limiter-IsComplete :
    (now rate i j : ℕ) (st : DestState) (p : Ptr) (pool : Pool)
    → IsComplete pool
    → IsAllocated pool.states i
    → st.rl ≡ p
    → p ≡ entry j
    → IsAllocated pool.rls j
    → (pool' : Pool) × (set_limiter now rate i st p pool ≡ ok pool') × IsComplete pool'
unfolding set_limiter
set_limiter-IsComplete now rate i j st null pool c alloc points e held = absurd (cc)
set_limiter-IsComplete now rate i j st list_head pool c alloc points e held = absurd (cc)
set_limiter-IsComplete now rate i j st (entry k) pool c alloc points e (rl, here) =
    let there : pool.rls k ≡ some rl = (let name : k ≡ j = cc in rw name here) in
    let limited = write_rl-IsComplete pool k (with_rate now rate rl) (rl, there) c in
    (
      _,
      rw there refl,
      write_state-IsComplete (record pool { rls = write pool.rls k (with_rate now rate rl) }) i
          (changed_at now st) alloc
          (k, points, write-IsAllocated pool.rls k (with_rate now rate rl) k (rl, there)) limited,
    )

pub apply_feedback-IsComplete :
    (K : Kernel) (P : Params) (now : ℕ) (locked : Bool) (skb : Skb) (i : ℕ) (pool : Pool)
    → IsComplete pool
    → Holds (HasRl pool.rls) pool.states i
    → (pool' : Pool) × (apply_feedback K P now locked skb i pool ≡ ok pool') × IsComplete pool'
unfolding apply_feedback set_limiter
apply_feedback-IsComplete K P now locked skb i pool c (st, here, (j, points, (rl, held))) =
    let due =
      ltb (to_u64 (K.us_delta now st.tx_rc.last_rfair_change_time)) P.rfair_decrease_interval_us in
    elim (Bool-cases (leb P.vq_drain_rate_mbps P.max_tx_rate && not (has_feedback P skb == 0))) [
      | inr idle ↦ rw (here, idle) (pool, refl, c)
      | inl fed ↦ elim (Bool-cases due) [
        | inl early ↦ rw (here, fed, early) (pool, refl, c)
        | inr late ↦ elim (Bool-cases locked) [
          | inr busy ↦ rw (here, fed, late, busy) (pool, refl, c)
          | inl free ↦
              rw (here, fed, late, free)
                (set_limiter-IsComplete now (has_feedback P skb) i j st st.rl pool c (st, here) refl
                  points (rl, held))
        ]
      ]
    ]
