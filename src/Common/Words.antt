-- ===== src/Common/Words.antt =====
-- Unsigned words: `u32` and `u64` values are numbers, with the wrap of each operation written out.
use Prim.Native.Nat.{ℕ, ◌+◌, ◌-◌, ◌*◌, ◌/◌, ◌%◌, ◌^◌, ◌≤◌, ◌<◌}
use mathlib.Core.Path.{◌≡◌}
use native.Mathlib.Omega.{arith}
use native.Mathlib.Nat.{mod-eq_of_lt, le-div_iff_mul-le, div-mul-le_self, le_trans}
use eyeq.Common.Tests.{ltb, if◌then◌else◌}

abbrev pub u32_mod : ℕ
u32_mod = 2 ^ 32

abbrev pub u64_mod : ℕ
u64_mod = 2 ^ 64

abbrev pub add32 : ℕ → ℕ → ℕ
add32 a b = (a + b) % u32_mod

abbrev pub add64 : ℕ → ℕ → ℕ
add64 a b = (a + b) % u64_mod

abbrev pub sub32 : ℕ → ℕ → ℕ
sub32 a b = (a + u32_mod - b) % u32_mod

abbrev pub sub64 : ℕ → ℕ → ℕ
sub64 a b = (a + u64_mod - b) % u64_mod

abbrev pub mul32 : ℕ → ℕ → ℕ
mul32 a b = (a * b) % u32_mod

abbrev pub mul64 : ℕ → ℕ → ℕ
mul64 a b = (a * b) % u64_mod

-- The macros `min` and `max`, over values that are converted to one unsigned type.
abbrev pub min_of : ℕ → ℕ → ℕ
min_of a b = if ltb a b then a else b

abbrev pub max_of : ℕ → ℕ → ℕ
max_of a b = if ltb b a then a else b

pub min_of_le_left : (a b : ℕ) → min_of a b ≤ a
min_of_le_left a b = ground arith

pub min_of_le_right : (a b : ℕ) → min_of a b ≤ b
min_of_le_right a b = ground arith

-- A product of two `u32` values is a `u64`.
pub mul-lt : (a b m n : ℕ) → a < m → b < n → a * b < m * n
mul-lt a b m n p q = grind arith

pub mul64_exact : (a b : ℕ) → a < 2 ^ 32 → b < 2 ^ 32 → mul64 a b ≡ a * b
mul64_exact a b p q = mod-eq_of_lt (mul-lt a b (2 ^ 32) (2 ^ 32) p q)

pub add64_exact : (a b : ℕ) → a + b < 2 ^ 64 → add64 a b ≡ a + b
add64_exact a b p = mod-eq_of_lt p

-- The bytes that a rate in Mb/s gives in a time in microseconds, added to a count of tokens.
pub credit_exact :
    (t r us : ℕ) → t < 2 ^ 63 → r < 2 ^ 32 → us < 2 ^ 32 → add64 t (mul64 r us / 8) ≡ t + r * us / 8
credit_exact t r us ht hr hu =
    let small = mul-lt r us (2 ^ 32) (2 ^ 32) hr hu in
    rw (mul64_exact r us hr hu) (add64_exact t (r * us / 8) (omega arith))

pub div_mono : (a b k : ℕ) → 0 < k → a ≤ b → a / k ≤ b / k
div_mono a b k h p = (le-div_iff_mul-le h).1 (le_trans (div-mul-le_self a k) p)
