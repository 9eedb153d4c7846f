-- ===== src/Vq/Rates.antt =====
-- vq.c: `iso_vq_calculate_rates`, the static shares of the virtual queues.
use native.Mathlib.Nat.{mod-eq_of_lt, div-mul-le_self, lt-div-mul-add, le_trans, le_refl}
use eyeq.Common.{
  ℕ, ◌+◌, ◌*◌, ◌/◌, ◌%◌, ◌^◌, ◌≤◌, ◌<◌, ◌≡◌, false, List, [], ◌∷◌, arith, map, ltb, if◌then◌else◌,
  mul64, sum_by, All, shares-le, lt→ltb,
}
use eyeq.Params.{Params}
use eyeq.Vq.{Vq}

-- `total_weight` is `u32`.
pub total_weight : List Vq → ℕ
total_weight vqs = sum_by (λ vq. vq.weight) vqs % 2 ^ 32

unfoldable pub share : Params → ℕ → Vq → Vq
share P total vq =
    if vq.is_static then vq else record vq { rate = mul64 P.vq_drain_rate_mbps vq.weight / total }

-- `iso_vq_calculate_rates`
pub calculate_rates : Params → List Vq → List Vq
unfolding total_weight share
calculate_rates P vqs =
    if ltb 0 (total_weight vqs) then map (share P (total_weight vqs)) vqs else vqs

-- The rate that a queue gets from the calculation: none, if its rate is static.
abbrev pub dynamic_rate : Vq → ℕ
dynamic_rate vq = if vq.is_static then 0 else vq.rate

dynamic_rate-share :
    (P : Params) (total : ℕ) (vq : Vq)
    → P.vq_drain_rate_mbps * vq.weight < 2 ^ 64
    → dynamic_rate (share P total vq) ≤ P.vq_drain_rate_mbps * vq.weight / total
unfolding share
dynamic_rate-share P total vq h =
    ground (arith, mod-eq_of_lt {n = P.vq_drain_rate_mbps * vq.weight} {m = 2 ^ 64} h)

sum-share :
    (P : Params) (total : ℕ) (vqs : List Vq)
    → All (λ vq. P.vq_drain_rate_mbps * vq.weight < 2 ^ 64) vqs
    → sum_by dynamic_rate (map (share P total) vqs)
      ≤ sum_by (λ vq. P.vq_drain_rate_mbps * vq.weight / total) vqs
sum-share P total [] h = omega arith
sum-share P total (vq ∷ vqs) h =
    omega (arith, dynamic_rate-share P total vq h.0, sum-share P total vqs h.1)

-- The rates that the queues without a static rate are given add up to no more than the drain rate.
-- (The weights do not make the sum or a product wrap, and one is not zero.)
calculate_rates_fit :
    (P : Params) (vqs : List Vq)
    → All (λ vq. P.vq_drain_rate_mbps * vq.weight < 2 ^ 64) vqs
    → 0 < sum_by (λ vq. vq.weight) vqs
    → sum_by (λ vq. vq.weight) vqs < 2 ^ 32
    → sum_by dynamic_rate (calculate_rates P vqs) ≤ P.vq_drain_rate_mbps
unfolding calculate_rates
calculate_rates_fit P vqs small some fits =
    let weight = sum_by (λ (vq : Vq). vq.weight) vqs in
    rw (mod-eq_of_lt fits, lt→ltb 0 weight some)
      (le_trans (sum-share P weight vqs small)
        (shares-le (λ vq. vq.weight) P.vq_drain_rate_mbps weight vqs some (le_refl weight)))

-- The share of a queue without a static rate is its weight's part of the drain rate, rounded down.
-- (The product does not wrap, and the total weight is not zero.)
share_fair :
    (P : Params) (total : ℕ) (vq : Vq)
    → P.vq_drain_rate_mbps * vq.weight < 2 ^ 64
    → 0 < total
    → vq.is_static ≡ false
    → ((share P total vq).rate * total ≤ P.vq_drain_rate_mbps * vq.weight)
      × (P.vq_drain_rate_mbps * vq.weight < (share P total vq).rate * total + total)
unfolding share
share_fair P total vq small some dynamic =
    rw (dynamic, mod-eq_of_lt small) (div-mul-le_self _ total, lt-div-mul-add some)
