-- ===== src/Tx/Lifetime.antt =====
-- Classes that come and go: what `iso_txc_alloc` and `iso_sys_delete_txc` do to a device's list.
use eyeq.Common.{
  ℕ, ◌-◌, ◌/◌, ◌%◌, ◌^◌, ◌≡◌, refl, ap, ◌∙◌, ◌⊎◌, inl, inr, true, false, List, [], ◌∷◌, ◌++◌, arith,
  ◌==◌, fault, ok, sum_by, sum_by-append, All, All-map, All-append, Bool-cases, ==_iff, none, some,
  Option-cases, mul64, sub64,
}
use eyeq.Common.Store.{
  Store, IsAllocated, at, write, free, update_at, update_all, write-IsAllocated, measure_of,
}
use eyeq.Kernel.{Kernel}
use eyeq.Params.{Params}
use eyeq.Tx.{TxClass, TxContext, tick_at, tick_class, tick_rate}
use eyeq.Tx.Classes.{
  done, txc_init, link, txc_alloc, install, txc_find, unlink, delete_txc, delete_found, find_in,
  install_found, bucket_of, remove, set_bucket,
}
use eyeq.Tx.Shares.{IsValid, recompute_ok, kept-IsValid}

-- A loop over a list with a freed object faults.
update_all-freed :
    (f : TxClass → TxClass) (before after : List ℕ) (i : ℕ) (s : Store TxClass)
    → s i ≡ none
    → update_all f (before ++ (i ∷ after)) s ≡ fault
unfolding update_all update_at
update_all-freed f [] after i s e = rw e refl
update_all-freed f (j ∷ before) after i s e = elim (Option-cases (s j)) [
  | inl gone ↦ rw gone refl
  | inr (a, here) ↦
      rw here
        (update_all-freed f before after i (write s j (f a)) (stays (Bool-cases (i == j)) here))
]
  where
    stays :
        {a : TxClass}
        → ((i == j) ≡ true) ⊎ ((i == j) ≡ false)
        → s j ≡ some a
        → write s j (f a) i ≡ none
    stays (inl same) here = ground (arith, e, here, ap s ((==_iff i j).0 same))
    stays (inr apart) here = rw apart e

write-other :
    (s : Store TxClass) (i j : ℕ) (txc a : TxClass)
    → s i ≡ none
    → s j ≡ some a
    → write s i txc j ≡ s j
write-other s i j txc a e here = elim (Bool-cases (j == i)) [
  | inl same ↦ absurd (ground (arith, e, here, ap s ((==_iff j i).0 same)))
  | inr apart ↦ rw apart refl
]

tick_at-freed :
    (K : Kernel) (P : Params) (now dt : ℕ) (context : TxContext) (before after : List ℕ) (i : ℕ)
    → context.txc_list ≡ before ++ (i ∷ after)
    → context.txcs i ≡ none
    → tick_at K P now dt context ≡ fault
unfolding tick_at
tick_at-freed K P now dt context before after i e gone =
    let summed = sum_by (λ x. (context.rlcb x).tx_bytes) K.online % 2 ^ 64 in
    let tx_rate = mul64 (sub64 summed context.tx_bytes) 8 / dt % 2 ^ 32 in
    let faults =
      update_all-freed (tick_class K P (tick_rate P context.rate tx_rate) dt) before after i
        context.txcs gone in
    elim (Bool-cases (dt == 0)) [
      | inl no_time ↦ rw no_time refl
      | inr time ↦ elim (Bool-cases (P.max_tx_rate == 0)) [
        | inl no_rate ↦ rw (time, no_rate) refl
        | inr rate ↦ rw (time, rate, e, faults) refl
      ]
    ]

-- Deleting a class that stands on its device's list, in a valid context, succeeds, and leaves the
-- freed class on the list: the next tick that is due reads freed memory.
pub delete_txc_dangles :
    (K : Kernel) (P : Params) (now dt klass i : ℕ) (context : TxContext) (before after : List ℕ)
    → IsValid context
    → context.txc_list ≡ before ++ (i ∷ after)
    → txc_find K klass context ≡ ok (some i)
    → (context' : TxContext) × (delete_txc K P klass context ≡ ok (done, context'))
      × (tick_at K P now dt context' ≡ fault)
unfolding delete_txc delete_found unlink
delete_txc_dangles K P now dt klass i context before after v e found =
    let (txc, here) = listed-IsAllocated before after (rw e at v.allocated) in
    let begin = record context {
      iso_tx_bucket =
          set_bucket context.iso_tx_bucket (bucket_of K txc.klass)
            (remove i (context.iso_tx_bucket (bucket_of K txc.klass)));
      txc_total_weight = context.txc_total_weight - txc.weight;
    } in
    let (txcs, run, kept, result) = recompute_ok P begin v.allocated in
    (
      record begin { txcs = free txcs i },
      rw (found, here, run) refl,
      tick_at-freed K P now dt (record begin { txcs = free txcs i }) before after i e
          (rw ((==_iff i i).1 refl) refl),
    )
  where
    listed-IsAllocated :
        (before after : List ℕ)
        → All (IsAllocated context.txcs) (before ++ (i ∷ after))
        → IsAllocated context.txcs i
    listed-IsAllocated [] after h = h.0
    listed-IsAllocated (j ∷ before) after h = listed-IsAllocated before after (h.1)

sum-write :
    (s : Store TxClass) (ids : List ℕ) (i : ℕ) (txc : TxClass)
    → s i ≡ none
    → All (IsAllocated s) ids
    → sum_by (at (λ t. t.weight) (write s i txc)) ids ≡ sum_by (at (λ t. t.weight) s) ids
sum-write s [] i txc e h = refl
sum-write s (j ∷ ids) i txc e ((a, here), h) = omega (
  arith,
  ap (λ o. measure_of (λ (t : TxClass). t.weight) o) (write-other s i j txc a e here),
  sum-write s ids i txc e h,
)

-- A new class is put on the list and into its bucket, and the context stays valid.
link-IsValid :
    (K : Kernel) (i : ℕ) (txc : TxClass) (context : TxContext)
    → context.txcs i ≡ none
    → IsValid context
    → IsValid (link K i txc context)
unfolding link
link-IsValid K i txc context e v = record {
  allocated =
      All-append (IsAllocated (write context.txcs i txc)) context.txc_list (i ∷ [])
        (All-map _ _ (λ j held. write-IsAllocated context.txcs i txc j held) context.txc_list
          v.allocated)
        ((txc, rw ((==_iff i i).1 refl) refl), tt);
  total =
      let new : at (λ t. t.weight) (write context.txcs i txc) i ≡ txc.weight =
        rw ((==_iff i i).1 refl) refl in
      omega (
        arith,
        new,
        v.total,
        sum-write context.txcs context.txc_list i txc e v.allocated,
        sum_by-append (at (λ t. t.weight) (write context.txcs i txc)) context.txc_list (i ∷ []),
      );
}

found-first :
    (s : Store TxClass) (i klass : ℕ) (rest : List ℕ)
    → IsAllocated s i
    → at (λ txc. txc.klass) s i ≡ klass
    → find_in s klass (i ∷ rest) ≡ ok (some i)
unfolding find_in
found-first s i klass rest (txc, here) e =
    let same : txc.klass ≡ klass = rw here at e in rw (here, same, (==_iff klass klass).1 refl) refl

-- Installing a class that is not there, when there is memory at a free address, in a valid context:
-- it succeeds, the context stays valid, the class is the last on the device's list, and a lookup
-- finds it.
pub install_new :
    (K : Kernel) (P : Params) (n i klass : ℕ) (context : TxContext)
    → IsValid context
    → context.txcs i ≡ none
    → txc_find K klass context ≡ ok none
    → (context' : TxContext) × (install K P n (some i) klass context ≡ ok (done, context'))
      × IsValid context'
      × (context'.txc_list ≡ context.txc_list ++ (i ∷ []))
      × (txc_find K klass context' ≡ ok (some i))
unfolding install install_found txc_alloc link
install_new K P n i klass context v unused missing =
    let txc = txc_init K P n i klass in
    let linked = link K i txc context in
    let valid = link-IsValid K i txc context unused v in
    let (txcs, run, kept, result) = recompute_ok P linked valid.allocated in
    let context' = record linked { txcs = txcs } in
    let b = bucket_of K klass in
    let here : linked.txcs i ≡ some txc = rw ((==_iff i i).1 refl) refl in
    let same : at (λ t. t.klass) linked.txcs i ≡ klass = rw here (unfold txc_init in refl) in
    (
      context',
      rw (missing, run) refl,
      kept-IsValid linked txcs valid kept,
      refl,
      rw ((==_iff b b).1 refl)
          (found-first txcs i klass _ (kept.alloc i (txc, here)) (kept.classes i ∙ same)),
    )
