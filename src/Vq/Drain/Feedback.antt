-- ===== src/Vq/Drain/Feedback.antt =====
-- The control law of a virtual queue: bounds, direction, and where it fails.
use native.Mathlib.Nat.{le-div_iff_mul-le, mod-eq_of_lt}
use eyeq.Common.{
  ℕ, ◌+◌, ◌-◌, ◌*◌, ◌/◌, ◌%◌, ◌^◌, ◌≤◌, ◌<◌, ◌≡◌, ap, ◌∙◌, false, arith, ◌==◌, sub64, add64, mul64,
  min_of, max_of, ok, mul-lt, le→leb, control_grow, control_shrink,
}
use eyeq.Common.Int.{ℤ, pos, to_u64}
use eyeq.Params.{Params}
use eyeq.Vq.Drain.{next_feedback}

-- The control law: the receive side is the bottleneck, as with the default parameters.
abbrev pub IsControlled : Params → Type 0
IsControlled P = P.vq_drain_rate_mbps ≤ P.max_tx_rate

clamp : Params → ℕ → ℕ → ℕ
clamp P rate x = max_of P.min_rfair (min_of rate x)

-- Without the wraps.
next_feedback_lem :
    (P : Params) (feedback rate : ℕ) (rx : ℤ)
    → IsControlled P
    → 0 < rate
    → rate < 2 ^ 31
    → next_feedback P feedback rate rx
      ≡ ok (clamp P rate (mul64 feedback (sub64 (3 * rate) (to_u64 rx)) / (2 * rate)))
unfolding next_feedback clamp
next_feedback_lem P feedback rate rx c some_rate small =
    let doubled : mul64 rate 2 % 2 ^ 32 ≡ 2 * rate = omega arith in
    let total : add64 (2 * rate) rate ≡ 3 * rate = omega arith in
    let not_zero : ((2 * rate) == 0) ≡ false = ground arith in
    rw (doubled, total, le→leb P.vq_drain_rate_mbps P.max_tx_rate c, not_zero)

-- Whatever was measured, and also where the arithmetic wraps, the new feedback rate lies between
-- the least rate and the queue's own rate, or is the least rate, if that is higher. (The law is in
-- control, and the queue's rate is from 1 to 2^31 - 1.)
pub feedback_bounds :
    (P : Params) (feedback rate : ℕ) (rx : ℤ)
    → IsControlled P
    → 0 < rate
    → rate < 2 ^ 31
    → (f : ℕ) × (next_feedback P feedback rate rx ≡ ok f)
      × (P.min_rfair ≤ f)
      × (f ≤ max_of P.min_rfair rate)
unfolding clamp
feedback_bounds P feedback rate rx c some_rate small =
    (_, next_feedback_lem P feedback rate rx c some_rate small, ground arith, ground arith)

-- Up to three times the rate the products are exact.
exact_product :
    (feedback rate r : ℕ)
    → feedback < 2 ^ 31
    → rate < 2 ^ 31
    → r ≤ 3 * rate
    → mul64 feedback (sub64 (3 * rate) (to_u64 (pos r))) ≡ feedback * (3 * rate - r)
exact_product feedback rate r f b h =
    let difference : sub64 (3 * rate) (to_u64 (pos r)) ≡ 3 * rate - r = omega arith in
    rw difference (mod-eq_of_lt (mul-lt feedback (3 * rate - r) (2 ^ 31) (2 ^ 33) f (omega arith)))

-- The law for what is received up to three times the rate: the feedback rate is multiplied by
-- (3 rate - received) / (2 rate), rounded down, and clamped to the least rate and the queue's rate.
-- (The law is in control, the rate is from 1 to 2^31 - 1, and the feedback rate is below 2^31.)
pub feedback_law :
    (P : Params) (feedback rate r : ℕ)
    → IsControlled P
    → 0 < rate
    → rate < 2 ^ 31
    → feedback < 2 ^ 31
    → r ≤ 3 * rate
    → next_feedback P feedback rate (pos r)
      ≡ ok (max_of P.min_rfair (min_of rate (feedback * (3 * rate - r) / (2 * rate))))
unfolding clamp
feedback_law P feedback rate r c some_rate small f h =
    next_feedback_lem P feedback rate (pos r) c some_rate small
    ∙ ap (λ x. ok (max_of P.min_rfair (min_of rate (x / (2 * rate)))))
        (exact_product feedback rate r f small h)

-- A queue that receives no more than its rate does not lower its feedback rate, if that is at most
-- its rate. (The law is in control, and the rate is from 1 to 2^31 - 1.)
feedback_grows :
    (P : Params) (feedback rate r : ℕ)
    → IsControlled P
    → 0 < rate
    → rate < 2 ^ 31
    → feedback ≤ rate
    → r ≤ rate
    → (f : ℕ) × (next_feedback P feedback rate (pos r) ≡ ok f) × (feedback ≤ f)
feedback_grows P feedback rate r c some_rate small f h = (
  _,
  feedback_law P feedback rate r c some_rate small (omega arith) (omega arith),
  ground (arith, control_grow feedback rate r some_rate h),
)

-- A queue that receives from its rate to three times its rate does not raise its feedback rate, but
-- for the least rate. (The law is in control, the rate is from 1 to 2^31 - 1, and the feedback rate
-- is below 2^31.)
feedback_falls :
    (P : Params) (feedback rate r : ℕ)
    → IsControlled P
    → 0 < rate
    → rate < 2 ^ 31
    → feedback < 2 ^ 31
    → rate ≤ r
    → r ≤ 3 * rate
    → (f : ℕ) × (next_feedback P feedback rate (pos r) ≡ ok f) × (f ≤ max_of P.min_rfair feedback)
feedback_falls P feedback rate r c some_rate small f above h = (
  _,
  feedback_law P feedback rate r c some_rate small f h,
  ground (arith, control_shrink feedback rate r above),
)

-- A product with a number just below 2^64.
wrapped_product :
    (f d k : ℕ) → d + k ≡ 2 ^ 64 → 0 < f * k → f * k < 2 ^ 64 → mul64 f d ≡ 2 ^ 64 - f * k
wrapped_product f d k e some small = omega (arith, ap (λ t. f * t) e)

mul-pos : (a b : ℕ) → 0 < a → 0 < b → 0 < a * b
mul-pos a b p q = grind arith

wrapped_quotient :
    (feedback rate r : ℕ)
    → 0 < rate
    → rate < 2 ^ 31
    → 0 < feedback
    → feedback < 2 ^ 31
    → 3 * rate < r
    → r < 2 ^ 31
    → rate ≤ mul64 feedback (sub64 (3 * rate) (to_u64 (pos r))) / (2 * rate)
wrapped_quotient feedback rate r some_rate small some f h s =
    let k : ℕ = r - 3 * rate in
    let below : sub64 (3 * rate) (to_u64 (pos r)) ≡ 2 ^ 64 - k = omega arith in
    let some_product : 0 < feedback * k = mul-pos feedback k some (omega arith) in
    let small_product = mul-lt feedback k (2 ^ 31) (2 ^ 31) f (omega arith) in
    let square = mul-lt rate (2 * rate) (2 ^ 31) (2 ^ 32) small (omega arith) in
    rw (below, wrapped_product feedback (2 ^ 64 - k) k (omega arith) some_product (omega arith))
      ((le-div_iff_mul-le (omega arith)).1 (omega arith))

-- Beyond three times the rate the subtraction wraps: a queue whose measure is that large (no mark
-- caps it) asks its senders for its full rate, or the least rate if that is higher, whatever the
-- feedback rate was. (The law is in control; all three rates are from 1 to 2^31 - 1.)
feedback_overload :
    (P : Params) (feedback rate r : ℕ)
    → IsControlled P
    → 0 < rate
    → rate < 2 ^ 31
    → 0 < feedback
    → feedback < 2 ^ 31
    → 3 * rate < r
    → r < 2 ^ 31
    → next_feedback P feedback rate (pos r) ≡ ok (max_of P.min_rfair rate)
unfolding clamp
feedback_overload P feedback rate r c some_rate small some f h s =
    next_feedback_lem P feedback rate (pos r) c some_rate small
    ∙ ap ok (ground (arith, wrapped_quotient feedback rate r some_rate small some f h s))
