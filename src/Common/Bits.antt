-- ===== src/Common/Bits.antt =====
-- The `|` of a shifted number and one that fits below it.
use Prim.Native.Nat.{
  ℕ, zero, suc, ◌+◌, ◌*◌, ◌/◌, ◌%◌, ◌^◌, ◌≤◌, ◌<◌, max, bit_or, digits, bit_or-bitwise,
}
use mathlib.Core.Path.{◌≡◌, refl}
use native.Mathlib.Nat.{pow-succ'}
use native.Mathlib.Omega.{arith}

-- The recursion behind `bit_or`, with the count of digits that are left.
abbrev or_from : ℕ → ℕ → ℕ → ℕ
or_from n a b = digits (λ b. b) max n a b

or_from_count : (n m a b : ℕ) → a ≤ n → a ≤ m → or_from n a b ≡ or_from m a b
or_from_count zero zero a b p q = refl
or_from_count zero (suc m) zero b p q = refl
or_from_count zero (suc m) (suc a) b p q = absurd (omega arith)
or_from_count (suc n) zero zero b p q = refl
or_from_count (suc n) zero (suc a) b p q = absurd (omega arith)
or_from_count (suc n) (suc m) zero b p q = refl
or_from_count (suc n) (suc m) (suc a) b p q =
    omega (arith, or_from_count n m (suc a / 2) (b / 2) (omega arith) (omega arith))

zero-bit_or : (b : ℕ) → bit_or 0 b ≡ b
zero-bit_or b = bit_or-bitwise 0 b

-- The lowest digits are combined, and the rest.
bit_or_half : (a b : ℕ) → bit_or a b ≡ bit_or (a / 2) (b / 2) * 2 + max (a % 2) (b % 2)
bit_or_half zero b = omega (arith, zero-bit_or b, zero-bit_or (b / 2))
bit_or_half (suc a) b = omega (
  arith,
  bit_or-bitwise (suc a) b,
  bit_or-bitwise (suc a / 2) (b / 2),
  or_from_count a (suc a / 2) (suc a / 2) (b / 2) (omega arith) (omega arith),
)

bit_or-zero_below : (n a : ℕ) → a ≤ n → bit_or a 0 ≡ a
bit_or-zero_below n zero h = refl
bit_or-zero_below zero (suc a) h = absurd (omega arith)
bit_or-zero_below (suc n) (suc a) h =
    omega (arith, bit_or_half (suc a) 0, bit_or-zero_below n (suc a / 2) (omega arith))

pub bit_or_above : (k a b : ℕ) → b < 2 ^ k → bit_or (a * 2 ^ k) b ≡ a * 2 ^ k + b
bit_or_above zero a b h = ground (arith, bit_or-zero_below a a)
bit_or_above (suc k) a b h =
    let shifted : a * 2 ^ suc k ≡ 2 * (a * 2 ^ k) = rw (pow-succ' 2 k) (grind arith) in
    let halved : 2 * (a * 2 ^ k) / 2 ≡ a * 2 ^ k = omega arith in
    let digits_of = rw halved at (bit_or_half (2 * (a * 2 ^ k)) b) in
    let half = bit_or_above k a (b / 2) (omega (arith, pow-succ' 2 k)) in
    rw shifted (omega (arith, digits_of, half))
