-- ===== src/Qdisc/Laws.antt =====
-- Traffic that EyeQ does not manage passes it, whatever the state of its limiters.
use eyeq.Common.{
  ℕ, ◌+◌, ◌<◌, ◌≡◌, refl, sym, ◌∙◌, ◌⊎◌, Bool, false, Option, none, some, ◌==◌, Bool-cases, ==_iff,
  inl, inr, Result, ok, ok-inj,
}
use eyeq.Common.Store.{Store, IsAllocated, write}
use eyeq.Class.{txc_classify}
use eyeq.Kernel.{Kernel, Skb}
use eyeq.Params.{Params}
use eyeq.Tx.{TxClass}
use eyeq.Tx.Kept.{IsFindable, tick-IsKept, find_in-kept}
use eyeq.Tx.Classes.{txc_find, bucket_of}
use eyeq.Tx.Path.{TxDevice, TxLocks, Sent, passed, send_class, iso_tx}
use eyeq.Tx.States.Laws.{state_get_other}
use eyeq.Qdisc.{Driver, xmit_success, nothing_out, skb_xmit, iso_enqueue}

-- The classes that a device's buckets and list name are allocated, each with its pools.
pub record IsReady (device : TxDevice) : Type 0 where
  pub findable : IsFindable device.context
  pub pools : (i : ℕ) → IsAllocated device.context.txcs i → IsAllocated device.pools i

-- Packets that belong to no class, or that are not IP.
abbrev pub IsUnmanaged : Kernel → Skb → TxDevice → Type 0
IsUnmanaged K skb device =
    (skb.is_ip ≡ false) ⊎ (txc_find K (txc_classify skb) device.context ≡ ok none)

write_same {ℓ} :
    {A : Type ℓ} (s : Store A) (i : ℕ) (a : A) → s i ≡ some a → (j : ℕ) → write s i a j ≡ s j
write_same s i a e j = elim (Bool-cases (j == i)) [
  | inl same ↦ rw (same, (==_iff j i).0 same) (sym e)
  | inr apart ↦ rw apart refl
]

-- What `iso_tx` makes of a packet that it does not manage.
abbrev Passes : Kernel → Params → Skb → TxDevice → Result Sent → Type 0
Passes K P skb device result =
    (device' : TxDevice) × (result ≡ ok (passed skb device'))
    × ((i : ℕ) → device'.pools i ≡ device.pools i)

send_class-Passes :
    (K : Kernel) (P : Params) (n : ℕ) (locks : TxLocks) (exiting : Bool) (cpu : ℕ) (skb : Skb)
    (device : TxDevice) (o : Option ℕ)
    → (o ≡ none)
      ⊎ ((i : ℕ) × (o ≡ some i) × IsAllocated device.context.txcs i × IsAllocated device.pools i)
    → (skb.is_ip ≡ false) ⊎ (o ≡ none)
    → Passes K P skb device (send_class K P n locks exiting cpu skb device o)
unfolding send_class
send_class-Passes K P n locks exiting cpu skb device none fate other = (device, refl, λ i. refl)
send_class-Passes K P n locks exiting cpu skb device (some c) fate (inr gone) = absurd (cc)
send_class-Passes K P n locks exiting cpu skb device (some c) (inl gone) (inl not_ip) = absurd (cc)
send_class-Passes K P n locks exiting cpu skb device (some c) (inr (i, same, held, has_pool))
      (inl not_ip) =
    let found : i ≡ c = cc in
    let (txc, here) = rw found at held in
    let (pool, there) = rw found at has_pool in
    (
      record device { pools = write device.pools c pool },
      rw (here, there, state_get_other K P n skb false false locks.state pool not_ip) refl,
      write_same device.pools c pool there,
    )

iso_tx-Passes :
    (K : Kernel) (P : Params) (n : ℕ) (locks : TxLocks) (exiting : Bool) (cpu : ℕ) (skb : Skb)
    (device : TxDevice)
    → IsReady device
    → 0 < P.txc_update_interval_us
    → 0 < P.max_tx_rate
    → IsUnmanaged K skb device
    → Passes K P skb device (iso_tx K P n locks exiting cpu skb device)
unfolding iso_tx txc_find
iso_tx-Passes K P n locks exiting cpu skb device v interval rate other =
    let (context, ticked, kept) =
      tick-IsKept K P (K.ktime n) locks.tick device.context v.findable interval rate in
    let klass = txc_classify skb in
    let (o, before, after, fate) =
      find_in-kept device.context.txcs context.txcs klass
        (device.context.iso_tx_bucket (bucket_of K klass)) (v.findable.buckets (bucket_of K klass))
        kept.alloc kept.classes in
    let unmanaged : (skb.is_ip ≡ false) ⊎ (o ≡ none) = unmanaged_as o before other in
    let (device', passes, same) =
      send_class-Passes K P (n + 1) locks exiting cpu skb (record device { context = context }) o
        (with_pools o fate) unmanaged in
    (device', rw (ticked, kept.buckets, after) passes, same)
  where
    unmanaged_as :
        (o : Option ℕ)
        → txc_find K (txc_classify skb) device.context ≡ ok o
        → IsUnmanaged K skb device
        → (skb.is_ip ≡ false) ⊎ (o ≡ none)
    unmanaged_as o found (inl not_ip) = inl not_ip
    unmanaged_as o found (inr no_class) = inr (ok-inj (sym found ∙ no_class))

    with_pools :
        {txcs : Store TxClass} (o : Option ℕ)
        → (o ≡ none)
          ⊎ ((i : ℕ) × (o ≡ some i) × IsAllocated device.context.txcs i × IsAllocated txcs i)
        → (o ≡ none) ⊎ ((i : ℕ) × (o ≡ some i) × IsAllocated txcs i × IsAllocated device.pools i)
    with_pools o (inl gone) = inl gone
    with_pools o (inr (i, same, held, kept)) = inr (i, same, kept, v.pools i held)

-- A packet that is not IP, or whose source has no class, goes unchanged and at once to `skb_xmit`, and
-- no other packet does, whatever trylocks fail and whether or not EyeQ is switched on, and no
-- destination's state or limiter is touched: the driver gets the packet, unless the packet's queue is
-- stopped, when it is freed, or there is no driver. (The classes that the device's buckets and list name are allocated, each with
-- its pools; the update interval and the device's rate are not 0.)
pub iso_enqueue_unmanaged :
    (K : Kernel) (P : Params) (n : ℕ) (locks : TxLocks) (exiting : Bool) (driver : Driver) (cpu : ℕ)
    (skb : Skb) (device : TxDevice)
    → IsReady device
    → 0 < P.txc_update_interval_us
    → 0 < P.max_tx_rate
    → IsUnmanaged K skb device
    → (device' : TxDevice) × (iso_enqueue K P n locks exiting driver cpu skb device
        ≡ ok (record {
          code = xmit_success;
          wire = skb_xmit driver skb nothing_out;
          device = device';
        }))
      × ((i : ℕ) → device'.pools i ≡ device.pools i)
unfolding iso_enqueue
iso_enqueue_unmanaged K P n locks exiting driver cpu skb device v interval rate other =
    let (device', run, same) =
      iso_tx-Passes K P n locks exiting cpu skb device v interval rate other in
    elim (Bool-cases (P.iso_global_enabled == 0)) [
      | inl off ↦ (device, rw off refl, λ i. refl)
      | inr on ↦ (device', rw (on, run) refl, same)
    ]
