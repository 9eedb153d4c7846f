-- ===== src/Rx/Sound.antt =====
-- `iso_rx` on a whole device: it reads nothing that is not allocated, and keeps the device sound.
use eyeq.Common.{
  ℕ, ◌+◌, ◌≤◌, ◌<◌, ◌≡◌, refl, ap, ◌∙◌, ◌⊎◌, Bool, true, not, List, [], ◌∷◌, Option, none, some,
  arith, ◌==◌, Bool-cases, All, All-map, inl, inr, Result, fault, ok,
}
use eyeq.Common.Store.{Store, IsAllocated, Holds, write, write-Holds}
use eyeq.Class.{rx_classify}
use eyeq.Kernel.{Kernel, Skb}
use eyeq.Packet.{is_feedback_marked, clear_ecn}
use eyeq.Params.{Params}
use eyeq.Rl.{Verdict, success, drop, pass, error}
use eyeq.Rx.Applied.{apply_feedback-IsComplete}
use eyeq.Rx.Feedback.{verdict_of, generate_due}
use eyeq.Rx.Handler.{
  Device, RxLocks, Received, accepted, receive_generate, with_pool, receive_state, receive_class,
  receive_vq, iso_rx,
}
use eyeq.Rx.Rates.{IsDraining, rcp_update_bounds}
use eyeq.Rx.Tuned.{IsTuned, stats_update-kept, vq_enqueue-IsTuned}
use eyeq.Tx.Classes.{txc_find, bucket_of}
use eyeq.Tx.Kept.{find_in-kept}
use eyeq.Tx.Path.{TxDevice}
use eyeq.Tx.Sound.{IsSound as IsSoundTx}
use eyeq.Tx.States.{Ptr, null, entry, list_head, Pool}
use eyeq.Tx.States.Complete.{IsComplete, IsFound, present, state_get-IsComplete}
use eyeq.Vq.{Vq}
use eyeq.Vq.Table.{vq_find, find_vq_in}

-- The sending side is sound; every queue that a bucket names is allocated, and has a target rate that
-- the drain can work with; and the advertised rate lies in its range.
pub record IsSound (P : Params) (device : Device) : Type 0 where
  pub sending : IsSoundTx device.tx
  pub queues : (b : ℕ) → All (Holds (IsTuned P) device.vqs.vqs) (device.vqs.vq_bucket b)
  pub least : P.min_rfair ≤ device.context.rcp_rate
  pub most : device.context.rcp_rate ≤ P.vq_drain_rate_mbps

-- The call returns, and the device is sound.
abbrev Ends : Params → Result Received → Type 0
Ends P r = (got : Received) × (r ≡ ok got) × IsSound P got.device

generate_due-IsTuned :
    (K : Kernel) (P : Params) (now later : ℕ) (allocated : Bool) (verdict : Verdict) (cpu : ℕ)
    (skb : Skb) (vq : Vq)
    → IsTuned P vq
    → IsTuned P (generate_due K P now later allocated verdict cpu skb vq).1
unfolding generate_due
generate_due-IsTuned K P now later allocated drop cpu skb vq t = t
generate_due-IsTuned K P now later allocated success cpu skb vq t = ground (arith, t)
generate_due-IsTuned K P now later allocated pass cpu skb vq t = ground (arith, t)
generate_due-IsTuned K P now later allocated error cpu skb vq t = ground (arith, t)

receive_generate-Ends :
    (K : Kernel) (P : Params) (n : ℕ) (locks : RxLocks) (cpu v : ℕ) (verdict : Verdict) (skb : Skb)
    (device : Device)
    → IsSound P device
    → Holds (IsTuned P) device.vqs.vqs v
    → Ends P (receive_generate K P n locks cpu v verdict skb device)
unfolding receive_generate
receive_generate-Ends K P n locks cpu v verdict skb device s (vq, here, tuned) =
    let r = generate_due K P (K.ktime n) (K.ktime (n + 1)) locks.allocated verdict cpu skb vq in
    let table = device.vqs in
    (
      record {
        verdict = verdict;
        skb = skb;
        feedback = r.0;
        device = record device { vqs = record table { vqs = write table.vqs v r.1 } };
      },
      rw here refl,
      record {
        sending = s.sending;
        queues = λ b.
            All-map _ _
              (write-Holds (IsTuned P) device.vqs.vqs v r.1
                (generate_due-IsTuned K P _ _ locks.allocated verdict cpu skb vq tuned))
              (device.vqs.vq_bucket b) (s.queues b);
        least = s.least;
        most = s.most;
      },
    )

pub with_pool-IsSound :
    (P : Params) (c : ℕ) (pool : Pool) (device : Device)
    → IsComplete pool
    → IsSound P device
    → IsSound P (with_pool c pool device)
with_pool-IsSound P c pool device complete s = record {
  sending = record {
    findable = s.sending.findable;
    pools = λ i alloc.
        write-Holds IsComplete device.tx.pools c pool complete i (s.sending.pools i alloc);
  };
  queues = s.queues;
  least = s.least;
  most = s.most;
}

receive_state-Ends :
    (K : Kernel) (P : Params) (n : ℕ) (locks : RxLocks) (cpu v c : ℕ) (skb : Skb) (device : Device)
    (p : Ptr) (pool : Pool)
    → IsSound P device
    → Holds (IsTuned P) device.vqs.vqs v
    → IsComplete pool
    → IsFound pool p
    → Ends P (receive_state K P n locks cpu v c skb device (p, pool))
unfolding receive_state
receive_state-Ends K P n locks cpu v c skb device null pool s queue complete f =
    receive_generate-Ends K P (n + 1) locks cpu v success skb (with_pool c pool device)
      (with_pool-IsSound P c pool device complete s) queue
receive_state-Ends K P n locks cpu v c skb device list_head pool s queue complete f = elim f [ ]
receive_state-Ends K P n locks cpu v c skb device (entry i) pool s queue complete (present held) =
    let (pool', run, complete') =
      apply_feedback-IsComplete K P (K.ktime n) locks.rc skb i pool complete held in
    rw run (
      receive_generate-Ends K P (n + 1) locks cpu v (verdict_of P skb) (clear_ecn K skb)
        (with_pool c pool' device) (with_pool-IsSound P c pool' device complete' s) queue)

-- The class at `c` has no state left for a new destination.
abbrev pub RanOut : TxDevice → ℕ → Type 0
RanOut tx c = (pool : Pool) × (tx.pools c ≡ some pool) × (pool.prealloc_states ≡ [])

receive_class-Ends :
    (K : Kernel) (P : Params) (n : ℕ) (locks : RxLocks) (cpu v : ℕ) (skb : Skb) (device : Device)
    (o : Option ℕ)
    → IsSound P device
    → Holds (IsTuned P) device.vqs.vqs v
    → (o ≡ none) ⊎ ((i : ℕ) × (o ≡ some i) × IsAllocated device.tx.context.txcs i)
    → Ends P (receive_class K P n locks cpu v skb device o)
      ⊎ ((receive_class K P n locks cpu v skb device o ≡ fault)
          × ((c : ℕ) × (o ≡ some c) × RanOut device.tx c))
unfolding receive_class
receive_class-Ends K P n locks cpu v skb device none s queue fate =
    inl (accepted skb device, refl, s)
receive_class-Ends K P n locks cpu v skb device (some c) s queue (inl gone) = absurd (cc)
receive_class-Ends K P n locks cpu v skb device (some c) s queue (inr (i, same, alloc)) =
    let name : i ≡ c = cc in
    let (pool, here, complete) = s.sending.pools c (rw name at alloc) in
    let create = not (is_feedback_marked P skb == 0) in
    let (p, pool', run, complete', fate) =
      state_get-IsComplete K P n skb true create locks.state pool complete in
    elim fate [
      | inl found ↦ inl (
          rw (here, run)
            (receive_state-Ends K P (n + 3) locks cpu v c skb device p pool' s queue complete'
              found))
      | inr (creates, empty, head) ↦
          inr (rw (here, run, head) (unfold receive_state in refl), (c, refl, (pool, here, empty)))
    ]

pub find_vq_in-Holds :
    {Q : Vq → Type 0} (vqs : Store Vq) (klass : ℕ) (bucket : List ℕ)
    → All (Holds Q vqs) bucket
    → (o : Option ℕ) × (find_vq_in vqs klass bucket ≡ ok o)
      × ((o ≡ none) ⊎ ((i : ℕ) × (o ≡ some i) × Holds Q vqs i))
unfolding find_vq_in
find_vq_in-Holds vqs klass [] h = (none, refl, inl refl)
find_vq_in-Holds vqs klass (i ∷ rest) ((vq, here, q), h) = elim (Bool-cases (vq.klass == klass)) [
  | inl match ↦ (some i, rw (here, match) refl, inr (i, refl, (vq, here, q)))
  | inr other ↦
      let (o, e, fate) = find_vq_in-Holds vqs klass rest h in (o, rw (here, other) e, fate)
]

receive_vq-Ends :
    (K : Kernel) (P : Params) (n : ℕ) (locks : RxLocks) (cpu : ℕ) (skb : Skb) (device : Device)
    (o : Option ℕ)
    → IsSound P device
    → 1 ≤ P.min_rfair
    → (o ≡ none) ⊎ ((i : ℕ) × (o ≡ some i) × Holds (IsTuned P) device.vqs.vqs i)
    → Ends P (receive_vq K P n locks cpu skb device o)
      ⊎ ((receive_vq K P n locks cpu skb device o ≡ fault)
          × ((c : ℕ) × (txc_find K (rx_classify skb) device.tx.context ≡ ok (some c))
              × RanOut device.tx c))
unfolding receive_vq txc_find
receive_vq-Ends K P n locks cpu skb device none s rate fate = inl (accepted skb device, refl, s)
receive_vq-Ends K P n locks cpu skb device (some v) s rate (inl gone) = absurd (cc)
receive_vq-Ends K P n locks cpu skb device (some v) s rate (inr (i, same, held)) =
    let name : i ≡ v = cc in
    let (vq, here, tuned) = rw name at held in
    let rcp = device.context.rcp_rate in
    let (vq', run, tuned') =
      vq_enqueue-IsTuned K P n locks.vq cpu skb rcp vq tuned (omega (arith, s.least)) s.most in
    let klass = rx_classify skb in
    let txcs = device.tx.context.txcs in
    let (o, searched, again, fate) =
      find_in-kept txcs txcs klass (device.tx.context.iso_tx_bucket (bucket_of K klass))
        (s.sending.findable.buckets (bucket_of K klass)) (λ i h. h) (λ i. refl) in
    let table = device.vqs in
    let next : Device = record device { vqs = record table { vqs = write table.vqs v vq' } } in
    let put = write-Holds (IsTuned P) table.vqs v vq' tuned' in
    let sound : IsSound P next = record {
      sending = s.sending;
      queues = λ b. All-map _ _ put (table.vq_bucket b) (s.queues b);
      least = s.least;
      most = s.most;
    } in
    let ends =
      receive_class-Ends K P (n + 2) locks cpu v skb next o sound (put v (vq, here, tuned))
        (elim fate [ inl gone ↦ inl gone | inr (i, e, alloc, still) ↦ inr (i, e, alloc) ]) in
    elim ends [
      | inl e ↦ inl (rw (here, run, searched) e)
      | inr (stops, (c, found, out)) ↦
          inr
            (rw (here, run, searched) stops, (c, searched ∙ ap (λ (o : Option ℕ). ok o) found, out))
    ]

pub iso_rx-IsSound :
    (K : Kernel) (P : Params) (n : ℕ) (locks : RxLocks) (cpu : ℕ) (skb : Skb) (device : Device)
    → IsSound P device
    → IsDraining P
    → 1 ≤ P.min_rfair
    → 0 < P.vq_update_interval_us
    → ((got : Received) × (iso_rx K P n locks cpu skb device ≡ ok got) × IsSound P got.device)
      ⊎ ((iso_rx K P n locks cpu skb device ≡ fault)
          × ((c : ℕ) × (txc_find K (rx_classify skb) device.tx.context ≡ ok (some c))
              × RanOut device.tx c))
unfolding iso_rx vq_find
iso_rx-IsSound K P n locks cpu skb device s d rate interval =
    let (counted, counts, same) =
      stats_update-kept K P (K.ktime n) locks.stats cpu skb device.context interval in
    let (context, updates, least, most) =
      rcp_update_bounds K P (K.ktime (n + 1)) locks.rcp counted d (rw same s.least)
        (rw same s.most) in
    let klass = rx_classify skb in
    let (o, searched, fate) =
      find_vq_in-Holds device.vqs.vqs klass (device.vqs.vq_bucket (bucket_of K klass))
        (s.queues (bucket_of K klass)) in
    let next : Device = record device { context = context } in
    let sound : IsSound P next = record {
      sending = s.sending;
      queues = s.queues;
      least = least;
      most = most;
    } in
    rw (counts, updates, searched)
      (receive_vq-Ends K P (n + 2) locks cpu skb next o sound rate fate)
