-- ===== src/Packet/Feedback.antt =====
-- Feedback packets, as their receiver sees them.
use eyeq.Common.{ℕ, ◌^◌, ◌<◌, ◌≡◌, refl, true, some, arith}
use eyeq.Kernel.{Skb}
use eyeq.Params.{Params}
use eyeq.Packet.{
  has_feedback, is_generated_feedback, is_feedback_marked, generate_feedback, feedback_packet,
}

-- A feedback packet made for an IP packet goes from that packet's destination back to its sender, by
-- IP and Ethernet address, and its receiver knows it for feedback and reads the rate that was put
-- in. (The rate is below 2^16, and the protocol number below 2^8; there was memory for a packet.)
pub feedback_roundtrip :
    (P : Params) (rate : ℕ) (pkt : Skb)
    → pkt.is_ip ≡ true
    → rate < 2 ^ 16
    → P.feedback_packet_ipproto < 2 ^ 8
    → (fb : Skb) × (generate_feedback P true rate pkt ≡ some fb)
      × (has_feedback P fb ≡ rate)
      × (is_feedback_marked P fb ≡ rate)
      × (is_generated_feedback P fb ≡ true)
      × (fb.daddr ≡ pkt.saddr)
      × (fb.saddr ≡ pkt.daddr)
      × (fb.h_dest ≡ pkt.h_source)
unfolding has_feedback is_generated_feedback is_feedback_marked generate_feedback
feedback_roundtrip P rate pkt ip small proto = (
  feedback_packet P rate pkt,
  ground arith,
  ground arith,
  ground arith,
  ground arith,
  refl,
  refl,
  refl,
)
