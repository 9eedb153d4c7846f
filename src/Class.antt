-- ===== src/Class.antt =====
-- class.h, where classes are told apart by IP address: the class of a packet, and the text form of a
-- class.
pub mod Text
pub mod Builds
use Prim.Native.Nat.{bit_or}
use eyeq.Common.{ℕ, ◌*◌, ◌/◌, ◌%◌, ◌^◌, List, [], ◌∷◌, if◌then◌else◌}
use eyeq.Kernel.{Kernel, Skb}

-- `iso_txc_classify`
unfoldable pub txc_classify : Skb → ℕ
txc_classify skb = if skb.is_ip then skb.saddr else 0

-- `iso_rx_classify`
unfoldable pub rx_classify : Skb → ℕ
rx_classify skb = if skb.is_ip then skb.daddr else 0

-- The four numbers that `iso_class_show` prints: a mask and a shift for each.
unfoldable pub class_show : Kernel → ℕ → List ℕ
class_show K klass =
    let addr = K.htonl klass in
    addr / 2 ^ 24 % 256 ∷ addr / 2 ^ 16 % 256 ∷ addr / 2 ^ 8 % 256 ∷ addr % 256 ∷ []

-- The address from four numbers; the shifts are those of `u32`.
unfoldable pub address : ℕ → ℕ → ℕ → ℕ → ℕ
address a b c d =
    bit_or (bit_or (bit_or (a * 2 ^ 24 % 2 ^ 32) (b * 2 ^ 16 % 2 ^ 32)) (c * 2 ^ 8 % 2 ^ 32)) d

-- `iso_class_parse`, from the numbers that `sscanf` reads, at most four.
unfoldable pub class_parse : Kernel → List ℕ → ℕ
unfolding address
class_parse K (a ∷ b ∷ c ∷ d ∷ []) = K.htonl (address a b c d)
class_parse K _ = K.htonl 0
