-- ===== src/Class/Builds.antt =====
-- class.h: the operations on classes in each build (ISO_TX_CLASS_MARK, _IPADDR, _L4PORT, _DEV
-- and _ETHER_SRC), as the record of operations that class.h asks for.
pub mod Laws
use eyeq.Common.{
  ℕ, ◌-◌, ◌/◌, ◌%◌, ◌^◌, ◌<◌, ◌≡◌, Bool, true, false, ◌||◌, List, [], ◌∷◌, Option, none, some, ◌==◌,
  if◌then◌else◌, sub32, sub64, Result, ok, ◌>>=◌,
}
use eyeq.Common.Int.{ℤ, pos, negsuc, signed32, to_u32}
use eyeq.Common.Store.{Store, read}
use eyeq.Class.{txc_classify, rx_classify, class_show, class_parse}
use eyeq.Kernel.{Kernel, Skb}

-- A packet with the fields that the builds read: its device's address, its mark, its Ethernet
-- addresses as bytes, and the destination port of its TCP or UDP header, in the packet's byte order.
pub record Frame : Type 0 where
  pub skb : Skb
  pub dev : ℕ
  pub mark : ℕ
  pub source : List ℕ
  pub dest : List ℕ
  pub port : ℕ

-- What a build gives for its classes: `iso_txc_classify`, `iso_rx_classify`, `iso_class_cmp` and
-- `iso_class_hash`.
pub record ClassOps (C : Type 0) : Type 0 where
  pub txc : Frame → C
  pub rx : Frame → C
  pub cmp : C → C → ℤ
  pub hash : C → ℕ

-- The text of a class: the numbers that `iso_class_show` prints, and `iso_class_parse` from those that
-- `sscanf` reads.
pub record ClassText : Type 0 where
  pub show : ℕ → List ℤ
  pub parse : List ℤ → ℕ

-- `a - b` on `u32`, returned as an `int`.
unfoldable pub word_cmp : ℕ → ℕ → ℤ
word_cmp a b = signed32 (sub32 a b)

abbrev pub by_mark : ClassOps ℕ
by_mark = record {
  txc = λ frame. frame.mark;
  rx = λ frame. frame.mark;
  cmp = word_cmp;
  hash = λ klass. klass;
}

-- `%d` prints and reads an `int`.
unfoldable pub mark_show : ℕ → List ℤ
mark_show klass = signed32 klass ∷ []

unfoldable pub mark_parse : List ℤ → ℕ
mark_parse [] = 0
mark_parse (z ∷ rest) = to_u32 z

abbrev pub mark_text : ClassText
mark_text = record { show = mark_show; parse = mark_parse }

abbrev pub by_ipaddr : Kernel → ClassOps ℕ
by_ipaddr K = record {
  txc = λ frame. txc_classify frame.skb;
  rx = λ frame. rx_classify frame.skb;
  cmp = word_cmp;
  hash = λ klass. K.jhash klass 0xdeadbeef;
}

-- IPPROTO_TCP and IPPROTO_UDP
abbrev pub has_ports : Skb → Bool
has_ports skb = (skb.protocol == 6) || (skb.protocol == 17)

-- `iso_txc_classify` and `iso_rx_classify`: the destination port, also of a packet that is received.
unfoldable pub port_classify : Frame → ℕ
port_classify frame = if frame.skb.is_ip then (if has_ports frame.skb then frame.port else 0) else 0

abbrev pub by_port : Kernel → ClassOps ℕ
by_port K = record {
  txc = port_classify;
  rx = port_classify;
  cmp = word_cmp;
  hash = λ klass. K.jhash klass 0xdeadbeef;
}

-- `htons` takes a `u16`; it is its own inverse on the machines that turn the bytes, and the identity on
-- the others.
module _ (htons : ℕ → ℕ) where
  -- `%u` prints and reads a `u32`.
  unfoldable pub port_show : ℕ → List ℤ
  port_show klass = pos (htons (klass % 2 ^ 16)) ∷ []

  unfoldable pub port_parse : List ℤ → ℕ
  port_parse [] = htons 0
  port_parse (z ∷ rest) = htons (to_u32 z % 2 ^ 16)

  abbrev pub port_text : ClassText
  port_text = record { show = port_show; parse = port_parse }

-- `(u64)a - (u64)b`, cut to an `int`.
unfoldable pub dev_cmp : ℕ → ℕ → ℤ
dev_cmp a b = signed32 (sub64 a b % 2 ^ 32)

abbrev pub by_dev : ClassOps ℕ
by_dev = record {
  txc = λ frame. frame.dev;
  rx = λ frame. frame.dev;
  cmp = dev_cmp;
  hash = λ klass. klass / 2 ^ 12 % 2 ^ 32;
}

-- The source address of a packet that is sent, and the destination of one that is received; `memcmp`
-- and `jhash` are the kernel's.
abbrev pub by_ether : (List ℕ → List ℕ → ℤ) → (List ℕ → ℕ) → ClassOps (List ℕ)
by_ether memcmp jhash = record {
  txc = λ frame. frame.source;
  rx = λ frame. frame.dest;
  cmp = memcmp;
  hash = jhash;
}

-- The test that the lookups make of `iso_class_cmp`.
abbrev pub is_zero : ℤ → Bool
is_zero (pos n) = n == 0
is_zero (negsuc n) = false
