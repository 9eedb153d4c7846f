-- ===== src/Examples/Builds.antt =====
-- Other builds at concrete inputs: the operations on classes, and EyeQ without a queueing discipline.
use eyeq.Common.{
  ℕ, ◌+◌, ◌*◌, ◌/◌, ◌%◌, ◌^◌, ◌≡◌, refl, true, false, none, some, arith, ◌==◌, if◌then◌else◌, ok,
}
use eyeq.Class.Builds.{word_cmp, dev_cmp, mark_text, port_text}
use eyeq.Common.Int.{pos}
use eyeq.Class.Builds.Laws.{classes_told_apart}
use eyeq.Direct.{Transmitted, iso_ndo_start_xmit}
use eyeq.Direct.Laws.{Agrees, iso_ndo_start_xmit-Agrees}
use eyeq.Kernel.{Skb}
use eyeq.Params.{defaults}
use eyeq.Qdisc.{Driver, Enqueued, nothing_out, iso_enqueue}
use eyeq.Tx.Path.{TxLocks}
use eyeq.Tx.Sound.{IsSound}
use eyeq.Examples.{packet, kernel}
use eyeq.Examples.Traffic.{device, device-IsSoundTx}

-- The two bytes of a port change places.
abbrev htons : ℕ → ℕ
htons port = port % 2 ^ 8 * 2 ^ 8 + port / 2 ^ 8

-- Two devices, 4 GB apart.
abbrev eth0 : ℕ
eth0 = 4096

abbrev eth1 : ℕ
eth1 = eth0 + 2 ^ 32

abbrev web : ℕ
web = 8080

abbrev tenant : ℕ
tenant = 4000000000

classes_told_apart_example :
    (word_cmp tenant web ≡ pos 0 → tenant ≡ web)
    × (tenant ≡ web → word_cmp tenant web ≡ pos 0)
    × (dev_cmp eth0 eth1 ≡ pos 0 → eth0 % 2 ^ 32 ≡ eth1 % 2 ^ 32)
    × (eth0 % 2 ^ 32 ≡ eth1 % 2 ^ 32 → dev_cmp eth0 eth1 ≡ pos 0)
    × (mark_text.parse (mark_text.show tenant) ≡ tenant)
    × ((port_text htons).parse ((port_text htons).show web) ≡ web)
classes_told_apart_example =
    classes_told_apart htons tenant web eth0 eth1 tenant web (omega arith) (omega arith)
      (omega arith) (omega arith) (omega arith) (omega arith) (omega arith) refl

abbrev free_locks : TxLocks
free_locks = record { tick = true; state = true; child = true; root = true }

abbrev running : Driver
running = record { attached = true; stopped = λ skb. false }

-- Packets go to one of four queues, by length.
abbrev queue_of : Skb → ℕ
queue_of skb = skb.len % 4

iso_ndo_start_xmit-Agrees_example :
    (t : Transmitted) × (e : Enqueued) × (iso_ndo_start_xmit queue_of kernel defaults 1 free_locks
        false running 0 packet device.tx
        (record { owner = λ i. if i == 2 then some 0 else none; wire = nothing_out })
      ≡ ok t)
    × (iso_enqueue kernel defaults 1 free_locks false running 0 packet device.tx ≡ ok e)
    × Agrees queue_of 0 packet t e
    × IsSound t.device
iso_ndo_start_xmit-Agrees_example =
    iso_ndo_start_xmit-Agrees kernel defaults 1 free_locks false running 0 queue_of packet device.tx
      (λ i. if i == 2 then some 0 else none) device-IsSoundTx (omega arith) (omega arith)
      (omega arith) (λ i. refl)
