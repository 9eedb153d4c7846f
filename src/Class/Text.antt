-- ===== src/Class/Text.antt =====
-- The text form of a class is read back.
use Prim.Native.Nat.{bit_or}
use eyeq.Common.{ℕ, ◌+◌, ◌*◌, ◌/◌, ◌%◌, ◌^◌, ◌<◌, ◌≡◌, ap, ◌∙◌, arith}
use eyeq.Common.Bits.{bit_or_above}
use eyeq.Kernel.{Kernel}
use eyeq.Class.{class_show, class_parse, address}

-- Bytes do not overlap.
address_of_bytes :
    (a b c d : ℕ)
    → a < 256
    → b < 256
    → c < 256
    → d < 256
    → address a b c d ≡ a * 2 ^ 24 + b * 2 ^ 16 + c * 2 ^ 8 + d
unfolding address
address_of_bytes a b c d ha hb hc hd =
    let top : a * 2 ^ 24 % 2 ^ 32 ≡ a * 2 ^ 24 = omega arith in
    let next : b * 2 ^ 16 % 2 ^ 32 ≡ b * 2 ^ 16 = omega arith in
    let third : c * 2 ^ 8 % 2 ^ 32 ≡ c * 2 ^ 8 = omega arith in
    let two : bit_or (a * 2 ^ 24) (b * 2 ^ 16) ≡ (a * 2 ^ 8 + b) * 2 ^ 16 =
      omega (arith, bit_or_above 24 a (b * 2 ^ 16) (omega arith)) in
    let three : bit_or ((a * 2 ^ 8 + b) * 2 ^ 16) (c * 2 ^ 8)
        ≡ ((a * 2 ^ 8 + b) * 2 ^ 8 + c) * 2 ^ 8 =
      omega (arith, bit_or_above 16 (a * 2 ^ 8 + b) (c * 2 ^ 8) (omega arith)) in
    rw (top, next, third, two, three)
      (omega (arith, bit_or_above 8 ((a * 2 ^ 8 + b) * 2 ^ 8 + c) d (omega arith)))

-- A class that is shown and parsed again is the same class. (`htonl` undoes itself, and the class is
-- an address whose order it can turn.)
pub class_parse-class_show :
    (K : Kernel) (klass : ℕ)
    → K.htonl klass < 2 ^ 32
    → K.htonl (K.htonl klass) ≡ klass
    → class_parse K (class_show K klass) ≡ klass
unfolding class_parse class_show
class_parse-class_show K klass h e =
    let n = K.htonl klass in
    ap K.htonl (
      address_of_bytes (n / 2 ^ 24 % 256) (n / 2 ^ 16 % 256) (n / 2 ^ 8 % 256) (n % 256)
        (omega arith) (omega arith) (omega arith) (omega arith)
      ∙ omega arith)
    ∙ e
