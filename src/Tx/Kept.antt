-- ===== src/Tx/Kept.antt =====
-- A tick frees no class and moves none, so that a search finds what it found before.
use eyeq.Common.{
  ℕ, ◌%◌, ◌/◌, ◌^◌, ◌<◌, ◌≡◌, refl, ◌⊎◌, Bool, false, Option, none, some, List, [], ◌∷◌, arith, ltb,
  ◌==◌, All, Bool-cases, inl, inr, ok, sum_by, mul64, sub64,
}
use eyeq.Common.Int.{to_u64}
use eyeq.Common.Store.{Store, IsAllocated, at, at_one-IsAllocated, update_all-Updated}
use eyeq.Kernel.{Kernel}
use eyeq.Params.{Params}
use eyeq.Tx.{TxClass, TxContext, tick, tick_at, tick_class, tick_rate, accum}
use eyeq.Tx.Ticks.{kept-tick_class}
use eyeq.Tx.Classes.{find_in}

-- Every class that a bucket or the list names is allocated.
pub record IsFindable (context : TxContext) : Type 0 where
  pub listed : All (IsAllocated context.txcs) context.txc_list
  pub buckets : (b : ℕ) → All (IsAllocated context.txcs) (context.iso_tx_bucket b)

-- What a tick leaves as it was: the buckets, and each class but for its rates.
pub record IsKept (context context' : TxContext) : Type 0 where
  pub buckets : context'.iso_tx_bucket ≡ context.iso_tx_bucket
  pub list : context'.txc_list ≡ context.txc_list
  pub alloc : (i : ℕ) → IsAllocated context.txcs i → IsAllocated context'.txcs i
  pub older : (i : ℕ) → IsAllocated context'.txcs i → IsAllocated context.txcs i
  pub classes :
      (i : ℕ) → at (λ txc. txc.klass) context'.txcs i ≡ at (λ txc. txc.klass) context.txcs i

IsKept-refl : (context : TxContext) → IsKept context context
IsKept-refl context = record {
  buckets = refl;
  list = refl;
  alloc = λ i h. h;
  older = λ i h. h;
  classes = λ i. refl;
}

tick_at-IsKept :
    (K : Kernel) (P : Params) (now dt : ℕ) (context : TxContext)
    → IsFindable context
    → (dt == 0) ≡ false
    → (P.max_tx_rate == 0) ≡ false
    → (context' : TxContext) × (tick_at K P now dt context ≡ ok context') × IsKept context context'
unfolding tick_at accum
tick_at-IsKept K P now dt context v time rated =
    let summed = sum_by (λ x. (context.rlcb x).tx_bytes) K.online % 2 ^ 64 in
    let tx_rate = mul64 (sub64 summed context.tx_bytes) 8 / dt % 2 ^ 32 in
    let rate = tick_rate P context.rate tx_rate in
    let (txcs, run, u) =
      update_all-Updated (tick_class K P rate dt) context.txc_list context.txcs v.listed in
    (
      record context {
        txc_last_update_time = now;
        tx_bytes = summed;
        tx_rate = tx_rate;
        rate = rate;
        txcs = txcs;
      },
      rw (time, rated, run) refl,
      record {
        buckets = refl;
        list = refl;
        alloc = u.alloc;
        older = λ i held.
            at_one-IsAllocated context.txcs txcs i (u.same (λ txc. 1) (λ txc. refl) i) held;
        classes = u.same (λ txc. txc.klass) (λ txc. (kept-tick_class K P rate dt txc).1);
      },
    )

pub tick-IsKept :
    (K : Kernel) (P : Params) (now : ℕ) (locked : Bool) (context : TxContext)
    → IsFindable context
    → 0 < P.txc_update_interval_us
    → 0 < P.max_tx_rate
    → (context' : TxContext) × (tick K P now locked context ≡ ok context') × IsKept context context'
unfolding tick
tick-IsKept K P now locked context v interval rate =
    let dt = to_u64 (K.us_delta now context.txc_last_update_time) in
    elim (Bool-cases (ltb dt P.txc_update_interval_us)) [
      | inl early ↦ (context, rw early refl, IsKept-refl context)
      | inr due ↦ elim (Bool-cases locked) [
        | inl held ↦
            let (context', run, kept) =
              tick_at-IsKept K P now dt context v (ground (arith, due)) (ground arith) in
            (context', rw (due, held) run, kept)
        | inr busy ↦ (context, rw (due, busy) refl, IsKept-refl context)
      ]
    ]

-- A search does not fault, finds what is allocated, and finds the same after a tick.
pub find_in-kept :
    (s s' : Store TxClass) (klass : ℕ) (bucket : List ℕ)
    → All (IsAllocated s) bucket
    → ((i : ℕ) → IsAllocated s i → IsAllocated s' i)
    → ((i : ℕ) → at (λ txc. txc.klass) s' i ≡ at (λ txc. txc.klass) s i)
    → (o : Option ℕ) × (find_in s klass bucket ≡ ok o)
      × (find_in s' klass bucket ≡ ok o)
      × ((o ≡ none) ⊎ ((i : ℕ) × (o ≡ some i) × IsAllocated s i × IsAllocated s' i))
unfolding find_in
find_in-kept s s' klass [] h alloc classes = (none, refl, refl, inl refl)
find_in-kept s s' klass (i ∷ rest) ((txc, here), h) alloc classes =
    let (txc', there) = alloc i (txc, here) in
    let same : txc'.klass ≡ txc.klass = rw (there, here) at (classes i) in
    elim (Bool-cases (txc.klass == klass)) [
      | inl found ↦ (
        some i,
        rw (here, found) refl,
        rw (there, same, found) refl,
        inr (i, refl, (txc, here), (txc', there)),
      )
      | inr other ↦
          let (o, before, after, fate) = find_in-kept s s' klass rest h alloc classes in
          (o, rw (here, other) before, rw (there, same, other) after, fate)
    ]
