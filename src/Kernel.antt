-- ===== src/Kernel.antt =====
-- What the C files take from the Linux kernel: packets (`struct sk_buff` with its Ethernet and IPv4
-- headers) and the services that they call. The services are parameters of the models.
use eyeq.Common.{ℕ, Bool, List}
use eyeq.Common.Int.{ℤ}

-- The parts of a packet that the program reads and writes.
pub record Skb : Type 0 where
  -- `skb->len`, which does not count the Ethernet header
  pub len : ℕ
  -- whether `eth->h_proto` is `htons(ETH_P_IP)`
  pub is_ip : Bool
  pub h_source : ℕ
  pub h_dest : ℕ
  pub tos : ℕ
  pub tot_len : ℕ
  pub id : ℕ
  pub ttl : ℕ
  pub protocol : ℕ
  pub saddr : ℕ
  pub daddr : ℕ

-- The length of an Ethernet header.
abbrev pub eth_hlen : ℕ
eth_hlen = 14

-- The outcome of `skb_gso_segment`: an error pointer, or a chain of segments linked by `next`.
pub data Segments : Type 0 where
  is_err : Segments
  chain : Skb → List Skb → Segments

pub record Kernel : Type 0 where
  -- `ktime_us_delta(later, earlier)`; a `ktime_t` is a word that the program only hands on
  pub us_delta : ℕ → ℕ → ℤ
  -- the value of reading number n of `ktime_get`; readings are numbered in the order of the code, and
  -- one that a branch does not make leaves its number unused
  pub ktime : ℕ → ℕ
  -- the cpus that `for_each_online_cpu` visits
  pub online : List ℕ
  -- `ipv4_change_dsfield`: the new `tos` from the old, the mask and the value
  pub change_dsfield : ℕ → ℕ → ℕ → ℕ
  -- `ipv4_copy_dscp`: the new `tos` from the dscp and the old `tos`
  pub copy_dscp : ℕ → ℕ → ℕ
  pub gso_segment : Skb → Segments
  -- `skb_trim(skb, len)`
  pub trim : Skb → ℕ → Skb
  -- `jhash_1word`
  pub jhash : ℕ → ℕ → ℕ
  pub ntohl : ℕ → ℕ
  pub htonl : ℕ → ℕ
  -- whether `hlist_for_each_entry_rcu`, when it has met no match, leaves its cursor at the last entry
  -- that it visited; otherwise the cursor is NULL
  pub hlist_keeps_cursor : Bool
