-- ===== src/Rl/Clock.antt =====
-- What `iso_rl_clock` does to a limiter's rate and tokens.
use native.Mathlib.Nat.{div-div-eq-div-mul, pow-succ', div-le_self, one-le-pow, div-one}
use eyeq.Common.{
  sym, ◌∙◌, div_mono, ℕ, suc, ◌+◌, ◌*◌, ◌/◌, ◌^◌, ◌≤◌, ◌<◌, ◌≡◌, List, [], ◌∷◌, arith, min_of,
  max_of, length, ap, min_of_le_left, credit_exact,
}
use eyeq.Common.Int.{pos, to_u64}
use eyeq.Kernel.{Kernel}
use eyeq.Params.{Params}
use eyeq.Rl.{Rl, limit_idle, halve_stale, adjust_rate, add_tokens, burst_cap, refill, clock}

-- The bucket never holds more than the burst size at the new rate.
pub total_tokens-le-burst_cap :
    (K : Kernel) (P : Params) (now : ℕ) (rl : Rl)
    → (refill K P now rl).total_tokens ≤ burst_cap P (refill K P now rl).rate
unfolding refill
total_tokens-le-burst_cap K P now rl = min_of_le_left _ _

adjust_rate-le :
    (K : Kernel) (P : Params) (now us : ℕ) (rl : Rl)
    → ((adjust_rate K P now us rl).rate ≤ max_of 2 rl.rate)
      × ((adjust_rate K P now us rl).total_tokens ≡ rl.total_tokens)
unfolding adjust_rate limit_idle halve_stale
adjust_rate-le K P now us rl = ground arith

-- A refill does not raise the rate, but for the floor of 2.
pub refill-rate-le :
    (K : Kernel) (P : Params) (now : ℕ) (rl : Rl) → (refill K P now rl).rate ≤ max_of 2 rl.rate
unfolding refill add_tokens
refill-rate-le K P now rl = (adjust_rate-le K P now _ rl).0

-- A refill adds the bytes that the new rate gives in the time that has passed, up to the burst size
-- at that rate. (The time is not negative and, like the rate, below 2^32; the tokens are below 2^63.)
pub refill_tokens :
    (K : Kernel) (P : Params) (now us : ℕ) (rl : Rl)
    → K.us_delta now rl.last_update_time ≡ pos us
    → us < 2 ^ 32
    → rl.rate < 2 ^ 32
    → rl.total_tokens < 2 ^ 63
    → let rl' = refill K P now rl in
      rl'.total_tokens ≡ min_of (burst_cap P rl'.rate) (rl.total_tokens + rl'.rate * us / 8)
unfolding refill add_tokens
refill_tokens K P now us rl e h r t =
    let exact : to_u64 (K.us_delta now rl.last_update_time) ≡ us = rw e (omega arith) in
    let (le, same) = adjust_rate-le K P now us rl in
    rw exact (
      ap (min_of (burst_cap P (adjust_rate K P now us rl).rate)) (
        rw (
          same,
          credit_exact rl.total_tokens (adjust_rate K P now us rl).rate us t (ground arith) h,
        )))

-- The reading that refills, by the limiter's last rate update, finds it stale.
abbrev pub IsStale : Kernel → Params → ℕ → Rl → Type 0
IsStale K P now rl = P.rfair_feedback_timeout_us < to_u64 (K.us_delta now rl.last_rate_update_time)

-- Without feedback a refill halves the rate.
refill_stale :
    (K : Kernel) (P : Params) (now : ℕ) (rl : Rl)
    → IsStale K P now rl
    → ((refill K P now rl).rate ≤ max_of 2 (rl.rate / 2))
      × ((refill K P now rl).last_rate_update_time ≡ now)
unfolding refill add_tokens adjust_rate limit_idle halve_stale
refill_stale K P now rl h = ground arith

-- `iso_rl_clock` at each of the times, all of which are due.
pub refills : Kernel → Params → List ℕ → Rl → Rl
refills K P [] rl = rl
refills K P (now ∷ rest) rl = refills K P rest (refill K P now rl)

-- Each of the times comes later than the last by more than the feedback timeout.
abbrev pub AllStale : Kernel → Params → ℕ → List ℕ → Type 0
AllStale K P last [] = Unit {0}
AllStale K P last (now ∷ rest) =
    (P.rfair_feedback_timeout_us < to_u64 (K.us_delta now last)) × AllStale K P now rest

halve_twice : (r k : ℕ) → r / 2 / 2 ^ k ≡ r / 2 ^ suc k
halve_twice r k = div-div-eq-div-mul r 2 (2 ^ k) ∙ ap (◌/◌ r) (sym (pow-succ' 2 k))

-- Halving once more after a bound on the rate.
halve_bound :
    (x r1 r k : ℕ)
    → r1 ≤ max_of 2 (r / 2)
    → x ≤ max_of 2 (r1 / 2 ^ k)
    → x ≤ max_of 2 (r / 2 ^ suc k)
halve_bound x r1 r k h g = ground (
  arith,
  div-le_self r1 (2 ^ k),
  div_mono r1 (r / 2) (2 ^ k) (one-le-pow k 2 (omega arith)),
  halve_twice r k,
)

-- Refills that each come more than a feedback timeout after the last, with no feedback in between,
-- each at least halve the rate, down to 2 Mb/s.
pub refills_decay :
    (K : Kernel) (P : Params) (times : List ℕ) (rl : Rl)
    → AllStale K P rl.last_rate_update_time times
    → (refills K P times rl).rate ≤ max_of 2 (rl.rate / 2 ^ length times)
unfolding refills
refills_decay K P [] rl h = rw (div-one rl.rate) (ground arith)
refills_decay K P (now ∷ rest) rl h =
    let (halved, stamped) = refill_stale K P now rl h.0 in
    halve_bound _ (refill K P now rl).rate rl.rate (length rest) halved
      (refills_decay K P rest (refill K P now rl) (rw stamped (h.1)))

-- The clock leaves the queues alone.
pub queue-clock :
    (K : Kernel) (P : Params) (n : ℕ) (rl : Rl)
    → ((clock K P n rl).0.queue ≡ rl.queue)
      × ((clock K P n rl).0.txc ≡ rl.txc)
      × ((clock K P n rl).0.id ≡ rl.id)
unfolding clock refill add_tokens adjust_rate limit_idle halve_stale
queue-clock K P n rl = ground arith
