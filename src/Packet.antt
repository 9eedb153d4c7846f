-- ===== src/Packet.antt =====
-- The headers that the program reads and writes: the feedback packets of rl.h and rx.h, and the ECN
-- bits of tx.h.
pub mod Feedback
use Prim.Native.Nat.{bit_or}
use eyeq.Common.{
  ℕ, ◌-◌, ◌%◌, ◌^◌, Bool, true, false, not, ◌&&◌, ◌||◌, Option, none, some, ◌==◌, if◌then◌else◌,
}
use eyeq.Kernel.{Kernel, Skb}
use eyeq.Params.{Params, feedback_packet_size, feedback_header_size, feedback_packet_ttl}

-- `ISO_ECN_REFLECT_MASK`
abbrev pub reflect_mask : ℕ
reflect_mask = 8

-- `skb_set_feedback`, with its return value.
pub set_feedback : Kernel → Skb → ℕ × Skb
set_feedback K skb =
    if skb.is_ip
    then (0, record skb { tos = K.copy_dscp (bit_or skb.tos reflect_mask) skb.tos })
    else (1, skb)

-- `skb_has_feedback`: the rate that a feedback packet carries, and 0 for any other packet.
unfoldable pub has_feedback : Params → Skb → ℕ
has_feedback P skb =
    if skb.is_ip then if skb.protocol == P.feedback_packet_ipproto then skb.id else 0 else 0

-- `iso_is_generated_feedback`
pub is_generated_feedback : Params → Skb → Bool
is_generated_feedback P skb = skb.is_ip && (skb.protocol == P.feedback_packet_ipproto)

-- `iso_is_feedback_marked`
unfoldable pub is_feedback_marked : Params → Skb → ℕ
is_feedback_marked P skb =
    if skb.is_ip then if skb.protocol == P.feedback_packet_ipproto then skb.id else 0 else 0

-- The packet that `iso_generate_feedback` hands to `skb_xmit`. The id has 16 bits and the protocol
-- 8; the lengths are in host order; `pull` and `push` of the Ethernet header cancel.
pub feedback_packet : Params → ℕ → Skb → Skb
feedback_packet P bit pkt = record {
  len = feedback_packet_size;
  is_ip = pkt.is_ip;
  h_source = pkt.h_dest;
  h_dest = pkt.h_source;
  tos = bit_or 2 (if bit == 0 then 0 else reflect_mask);
  tot_len = feedback_header_size;
  id = bit % 2 ^ 16;
  ttl = feedback_packet_ttl;
  protocol = P.feedback_packet_ipproto % 2 ^ 8;
  saddr = pkt.daddr;
  daddr = pkt.saddr;
}

-- `iso_generate_feedback`; `allocated` says whether the kernel had a packet. `none` is its result 0.
pub generate_feedback : Params → Bool → ℕ → Skb → Option Skb
unfolding feedback_packet
generate_feedback P allocated bit pkt =
    if pkt.is_ip && allocated then some (feedback_packet P bit pkt) else none

-- `iso_enable_ecn`: `INET_ECN_ECT_0` is 2.
pub enable_ecn : Kernel → Skb → Skb
enable_ecn K skb = record skb { tos = K.change_dsfield skb.tos 0xff (bit_or skb.tos 2) }

-- `iso_clear_ecn`: `tos & ~0x3` clears the two low bits.
unfoldable pub clear_ecn : Kernel → Skb → Skb
clear_ecn K skb = record skb { tos = K.change_dsfield skb.tos 0xff (skb.tos - skb.tos % 4) }
