-- ===== src/Common/Control.antt =====
-- The control law that the queues and the devices share: a rate x is multiplied by
-- (3 cap - load) / (2 cap).
use native.Mathlib.Nat.{le-div_iff_mul-le, div-le_of_le-mul, mul-le-mul_left, mul_comm}
use Prim.Native.Nat.{ℕ, ◌-◌, ◌*◌, ◌/◌, ◌≤◌, ◌<◌}
use native.Mathlib.Omega.{arith}

-- Below the cap the law does not lower the rate.
pub control_grow : (x cap load : ℕ) → 0 < cap → load ≤ cap → x ≤ x * (3 * cap - load) / (2 * cap)
control_grow x cap load some h =
    let wide : 2 * cap ≤ 3 * cap - load = omega arith in
    (le-div_iff_mul-le (omega arith)).1 (mul-le-mul_left x wide)

-- From the cap on it does not raise it.
pub control_shrink : (x cap load : ℕ) → cap ≤ load → x * (3 * cap - load) / (2 * cap) ≤ x
control_shrink x cap load h =
    let narrow : 3 * cap - load ≤ 2 * cap = omega arith in
    div-le_of_le-mul (2 * cap) (rw (mul_comm (2 * cap) x) (mul-le-mul_left x narrow))
