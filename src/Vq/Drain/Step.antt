-- ===== src/Vq/Drain/Step.antt =====
-- A whole drain: what it writes, and the weight at which it divides by zero.
use native.Mathlib.Nat.{zero-mul}
use eyeq.Common.{ℕ, ◌*◌, ◌≤◌, ◌≡◌, ap, ◌∙◌, arith, max_of, fault, All, Percpu, le→leb}
use eyeq.Common.Int.{ℤ}
use eyeq.Kernel.{Kernel}
use eyeq.Params.{Params}
use eyeq.Vq.{Vq, VqStats}
use eyeq.Vq.Drain.{assimilate, target_rate, next_feedback, drain_at}
use eyeq.Vq.Drain.Feedback.{IsControlled}

-- A cpu's counters for feedback are zero.
abbrev pub IsReset : Percpu VqStats → ℕ → Type 0
IsReset stats i =
    ((stats i).rx_since_last_feedback ≡ 0)
    × ((stats i).rx_marked_since_last_feedback ≡ 0)
    × ((stats i).bytes_queued ≡ 0)

-- What a drain leaves.
pub record IsDrained (K : Kernel) (P : Params) (now rate : ℕ) (vq vq' : Vq) : Type 0 where
  pub least : P.min_rfair ≤ vq'.feedback_rate
  pub most : vq'.feedback_rate ≤ max_of P.min_rfair rate
  pub stamped : vq'.last_update_time ≡ now
  pub taken : vq'.last_rx_bytes ≡ (assimilate K vq.percpu_stats).rx_bytes
  pub cleared : All (IsReset vq'.percpu_stats) K.online
  pub kept : (i : ℕ) → (vq'.percpu_stats i).rx_bytes ≡ (vq.percpu_stats i).rx_bytes

no_rate :
    (P : Params) (feedback : ℕ) (rx : ℤ) → IsControlled P → next_feedback P feedback 0 rx ≡ fault
unfolding next_feedback
no_rate P feedback rx c = rw (le→leb P.vq_drain_rate_mbps P.max_tx_rate c)

target_rate_zero : (vq : Vq) (rcp_rate : ℕ) → vq.weight ≡ 0 → target_rate vq rcp_rate ≡ 0
unfolding target_rate
target_rate_zero vq rcp_rate w =
    let product : vq.weight * rcp_rate ≡ 0 = ap (λ t. t * rcp_rate) w ∙ zero-mul rcp_rate in
    ground (arith, product)

-- A queue of weight 0 divides by zero in its next drain, where the law is in control.
drain_zero_weight :
    (K : Kernel) (P : Params) (now rcp_rate : ℕ) (vq : Vq) (dt : ℕ)
    → IsControlled P
    → vq.weight ≡ 0
    → drain_at K P now rcp_rate vq dt ≡ fault
unfolding drain_at
drain_zero_weight K P now rcp_rate vq dt c w =
    let none_left = target_rate_zero vq rcp_rate w in rw (none_left, no_rate P vq.feedback_rate _ c)
