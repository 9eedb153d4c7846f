-- ===== src/Examples.antt =====
-- Tests, and the theorems at concrete inputs: a kernel of two cpus and two packets, here, for the
-- limiters, the virtual queues and the rate controllers, in the children.
mod Limiters
mod Relays
mod Virtual
mod Controllers
mod Classes
mod Destinations
mod Reaction
mod Tasklets
mod Handlers
mod Requests
mod Setup
mod Traffic
mod Builds
mod Exit
mod Exhausted
use eyeq.Common.{ℕ, ◌*◌, ◌%◌, true, [], ◌∷◌}
use eyeq.Common.Int.{sub_ℕ}
use eyeq.Kernel.{Kernel, Skb, chain}

-- A packet of 1000 bytes with its Ethernet header.
abbrev pub packet : Skb
packet = record {
  len = 986;
  is_ip = true;
  h_source = 1;
  h_dest = 2;
  tos = 3;
  tot_len = 986;
  id = 7;
  ttl = 64;
  protocol = 6;
  saddr = 10;
  daddr = 11;
}

-- One of 500 bytes.
abbrev pub short : Skb
short = record packet { len = 486 }

-- Readings of the time are 100 us apart; a packet is split in two short ones.
abbrev pub kernel : Kernel
kernel = record {
  us_delta = sub_ℕ;
  ktime = λ n. 100 * n;
  online = 0 ∷ 1 ∷ [];
  change_dsfield = λ old mask value. value;
  copy_dscp = λ dscp old. dscp;
  gso_segment = λ skb. chain (record skb { len = 486 }) (record skb { len = 486 } ∷ []);
  trim = λ skb len. record skb { len = len };
  jhash = λ key seed. key;
  ntohl = λ n. n;
  htonl = λ n. n;
  hlist_keeps_cursor = true;
}
