-- ===== src/Tx/Sound.antt =====
-- `iso_tx` on a whole device: it reads nothing that is not allocated, and keeps the device sound.
use eyeq.Common.{
  ℕ, ◌+◌, ◌<◌, ◌≡◌, refl, ◌⊎◌, Bool, false, Option, none, some, ◌==◌, Bool-cases, All-map, ==_iff,
  inl, inr, Result, ok,
}
use eyeq.Common.Store.{Store, IsAllocated, Holds, write, write-Holds, write-IsAllocated}
use eyeq.Class.{txc_classify}
use eyeq.Kernel.{Kernel, Skb}
use eyeq.Packet.{enable_ecn}
use eyeq.Params.{Params}
use eyeq.Rl.Enqueue.{enqueue}
use eyeq.Rl.Relay.{dequeue_child}
use eyeq.Tx.{TxClass}
use eyeq.Tx.Kept.{IsFindable, tick-IsKept, find_in-kept}
use eyeq.Tx.Classes.{txc_find, bucket_of}
use eyeq.Tx.Path.{
  TxDevice, TxLocks, Sent, passed, send_through, send_limiter, send_state, send_class,
  store_relayed, iso_tx,
}
use eyeq.Tx.States.{Ptr, null, entry, list_head, Pool}
use eyeq.Tx.States.Complete.{IsComplete, IsFound, present, state_get-IsComplete}
use eyeq.Tx.States.Refill.{write_rl-IsComplete}

-- What the buckets and the list of a device name is allocated, and each class has complete pools.
pub record IsSound (device : TxDevice) : Type 0 where
  pub findable : IsFindable device.context
  pub pools : (i : ℕ) → IsAllocated device.context.txcs i → Holds IsComplete device.pools i

write_allocated :
    {A : Type 0} (s : Store A) (c i : ℕ) (old a : A)
    → s c ≡ some old
    → IsAllocated (write s c a) i
    → IsAllocated s i
write_allocated s c i old a here held = elim (Bool-cases (i == c)) [
  | inl same ↦ rw ((==_iff i c).0 same) (old, here)
  | inr apart ↦ rw apart at held
]

-- The call returns, and the device is sound.
abbrev Ends : Result Sent → Type 0
Ends r = (sent : Sent) × (r ≡ ok sent) × IsSound sent.device

send_through-Ends :
    (K : Kernel) (P : Params) (n : ℕ) (locks : TxLocks) (exiting : Bool) (cpu : ℕ) (skb : Skb)
    (c j : ℕ) (txc : TxClass) (pool : Pool) (device : TxDevice)
    → IsSound device
    → device.context.txcs c ≡ some txc
    → IsComplete pool
    → IsAllocated pool.rls j
    → Ends (send_through K P n locks exiting cpu skb c j txc pool device)
unfolding send_through store_relayed
send_through-Ends K P n locks exiting cpu skb c j txc pool device v here complete (rl, held) =
    let (verdict, rl', n') = enqueue K P n rl (enable_ecn K skb) cpu in
    let r =
      dequeue_child K P n' locks.child locks.root exiting rl' txc.rl cpu
        (device.context.rlcb cpu) in
    let keep = write-IsAllocated device.context.txcs c (record txc { rl = r.parent.rl }) in
    (
      record {
        verdict = verdict;
        skb = enable_ecn K skb;
        device = store_relayed cpu c j txc pool r device;
        wire = r.parent.sent;
      },
      rw held refl,
      record {
        findable = record {
          listed = All-map _ _ keep device.context.txc_list v.findable.listed;
          buckets = λ b. All-map _ _ keep (device.context.iso_tx_bucket b) (v.findable.buckets b);
        };
        pools = λ i alloc.
            write-Holds IsComplete device.pools c _
              (write_rl-IsComplete pool j r.rl (rl, held) complete) i
              (v.pools i (write_allocated device.context.txcs c i txc _ here alloc));
      },
    )

send_state-Ends :
    (K : Kernel) (P : Params) (n : ℕ) (locks : TxLocks) (exiting : Bool) (cpu : ℕ) (skb : Skb)
    (c : ℕ) (txc : TxClass) (device : TxDevice) (p : Ptr) (pool : Pool)
    → IsSound device
    → device.context.txcs c ≡ some txc
    → IsComplete pool
    → IsFound pool p
    → Ends (send_state K P n locks exiting cpu skb c txc device (p, pool))
unfolding send_state send_limiter
send_state-Ends K P n locks exiting cpu skb c txc device null pool v here complete f = (
  passed skb (record device { pools = write device.pools c pool }),
  refl,
  record {
    findable = v.findable;
    pools = λ i alloc. write-Holds IsComplete device.pools c pool complete i (v.pools i alloc);
  },
)
send_state-Ends K P n locks exiting cpu skb c txc device list_head pool v here complete f =
    elim f [ ]
send_state-Ends K P n locks exiting cpu skb c txc device (entry i) pool v here complete
      (present (st, there, (j, points, held))) =
    rw (there, points)
      (send_through-Ends K P n locks exiting cpu skb c j txc pool device v here complete held)

send_class-Ends :
    (K : Kernel) (P : Params) (n : ℕ) (locks : TxLocks) (exiting : Bool) (cpu : ℕ) (skb : Skb)
    (device : TxDevice) (o : Option ℕ)
    → IsSound device
    → (o ≡ none) ⊎ ((i : ℕ) × (o ≡ some i) × IsAllocated device.context.txcs i)
    → Ends (send_class K P n locks exiting cpu skb device o)
unfolding send_class
send_class-Ends K P n locks exiting cpu skb device none v fate = (passed skb device, refl, v)
send_class-Ends K P n locks exiting cpu skb device (some c) v (inl gone) = absurd (cc)
send_class-Ends K P n locks exiting cpu skb device (some c) v (inr (i, same, alloc)) =
    let name : i ≡ c = cc in
    let (txc, here) = rw name at alloc in
    let (pool, there, complete) = v.pools c (txc, here) in
    let (p, pool', run, complete', fate) =
      state_get-IsComplete K P n skb false false locks.state pool complete in
    let found : IsFound pool' p = elim fate [
      | inl found ↦ found
      | inr (creates, empty, head) ↦ absurd (cc)
    ] in
    rw (here, there, run)
      (send_state-Ends K P (n + 3) locks exiting cpu skb c txc device p pool' v here complete'
        found)

-- `iso_tx` on a sound device returns and leaves it sound, whatever packet it is given and whatever
-- trylocks fail: it reads no class, state or limiter that is not allocated, and divides by nothing
-- that is zero. (The update interval and the device's rate are not 0.)
pub iso_tx-IsSound :
    (K : Kernel) (P : Params) (n : ℕ) (locks : TxLocks) (exiting : Bool) (cpu : ℕ) (skb : Skb)
    (device : TxDevice)
    → IsSound device
    → 0 < P.txc_update_interval_us
    → 0 < P.max_tx_rate
    → (sent : Sent) × (iso_tx K P n locks exiting cpu skb device ≡ ok sent) × IsSound sent.device
unfolding iso_tx txc_find
iso_tx-IsSound K P n locks exiting cpu skb device v interval rate =
    let (context, ticked, kept) =
      tick-IsKept K P (K.ktime n) locks.tick device.context v.findable interval rate in
    let klass = txc_classify skb in
    let (o, before, after, fate) =
      find_in-kept device.context.txcs context.txcs klass
        (device.context.iso_tx_bucket (bucket_of K klass)) (v.findable.buckets (bucket_of K klass))
        kept.alloc kept.classes in
    let sound : IsSound (record device { context = context }) = record {
      findable = record {
        listed = rw kept.list (All-map _ _ kept.alloc device.context.txc_list v.findable.listed);
        buckets = λ b.
            rw kept.buckets
              (All-map _ _ kept.alloc (device.context.iso_tx_bucket b) (v.findable.buckets b));
      };
      pools = λ i held. v.pools i (kept.older i held);
    } in
    rw (ticked, kept.buckets, after)
      (send_class-Ends K P (n + 1) locks exiting cpu skb (record device { context = context }) o
        sound
        (elim fate [ inl gone ↦ inl gone | inr (i, same, held, still) ↦ inr (i, same, still) ]))
