-- ===== src/Vq/Table/Laws.antt =====
-- The table of virtual queues: what stays allocated, how the drain rate is shared, and what
-- deletion leaves behind.
use native.Mathlib.Nat.{mod-eq_of_lt, le_trans, mod-le}
use eyeq.Common.{
  ℕ, ◌*◌, ◌/◌, ◌%◌, ◌^◌, ◌≤◌, ◌<◌, ◌≡◌, refl, inl, inr, List, [], ◌∷◌, arith, ◌==◌, some,
  Option-cases, Bool-cases, ==_iff, fault, ok, sum_by, All, All-map, shares-le, lt→ltb, le→ltb,
  div_mono,
}
use eyeq.Common.Int.{pos}
use eyeq.Common.Store.{Store, IsAllocated, Holds, at, free, write, update_at, update_all-Updated}
use eyeq.Kernel.{Kernel}
use eyeq.Params.{Params}
use eyeq.Tx.Classes.{done, bucket_of, remove}
use eyeq.Vq.{Vq}
use eyeq.Vq.Drain.{target_rate}
use eyeq.Vq.Rates.{share, dynamic_rate}
use eyeq.Vq.Table.{
  VqTable, find_vq_in, vq_find, weigh, recalculate, vq_free, delete_found_vq, delete_vq, rate_vq,
  set_vq_rate, set_rate,
}

-- Freeing the queue that a bucket's walk finds leaves a walk that faults.
found-freed :
    (vqs : Store Vq) (klass i : ℕ) (bucket : List ℕ)
    → find_vq_in vqs klass bucket ≡ ok (some i)
    → find_vq_in (free vqs i) klass bucket ≡ fault
unfolding find_vq_in
found-freed vqs klass i [] h = ground (arith, h)
found-freed vqs klass i (j ∷ rest) h = elim (Option-cases (vqs j)) [
  | inl gone ↦ absurd (ground (arith, rw gone at h))
  | inr (vq, here) ↦ elim (Bool-cases (j == i)) [
    | inl same ↦ rw same refl
    | inr apart ↦ elim (Bool-cases (vq.klass == klass)) [
      | inl match ↦ absurd (ground (arith, apart, rw (here, match) at h))
      | inr other ↦ rw (apart, here, other) (found-freed vqs klass i rest (rw (here, other) at h))
    ]
  ]
]

-- Deleting a virtual queue that no class refers to succeeds, and leaves its bucket as it was: the
-- next lookup of its class reads freed memory.
pub delete_vq_dangles :
    (K : Kernel) (klass i : ℕ) (table : VqTable) (vq : Vq)
    → vq_find K klass table ≡ ok (some i)
    → table.vqs i ≡ some vq
    → vq.refcnt ≡ 0
    → (table' : VqTable) × (delete_vq K klass table ≡ ok (done, table'))
      × (vq_find K klass table' ≡ fault)
unfolding delete_vq delete_found_vq vq_free vq_find
delete_vq_dangles K klass i table vq found here unused = (
  record table { vq_list = remove i table.vq_list; vqs = free table.vqs i },
  rw (found, here, unused) refl,
  found-freed table.vqs klass i (table.vq_bucket (bucket_of K klass)) found,
)

-- Every queue on the list is allocated.
abbrev pub IsListed : VqTable → Type 0
IsListed table = All (IsAllocated table.vqs) table.vq_list

weigh_ok :
    (vqs : Store Vq) (ids : List ℕ)
    → All (IsAllocated vqs) ids
    → weigh vqs ids ≡ ok (sum_by (at (λ vq. vq.weight) vqs) ids)
unfolding weigh
weigh_ok vqs [] h = refl
weigh_ok vqs (i ∷ ids) ((vq, here), h) = rw (here, weigh_ok vqs ids h) refl

-- A queue that is not static has the share of its weight.
abbrev pub IsShared : Params → ℕ → Vq → Type 0
IsShared P total vq = dynamic_rate vq ≤ P.vq_drain_rate_mbps * vq.weight / total

share-IsShared :
    (P : Params) (total : ℕ) (vq : Vq) → 0 < total → IsShared P total (share P total vq)
unfolding share
share-IsShared P total vq positive =
    let product = P.vq_drain_rate_mbps * vq.weight in
    ground (arith, div_mono (product % 2 ^ 64) product total positive (mod-le product (2 ^ 64)))

kept-share :
    (P : Params) (total : ℕ) (vq : Vq)
    → ((share P total vq).weight ≡ vq.weight) × ((share P total vq).klass ≡ vq.klass)
unfolding share
kept-share P total vq = (ground arith, ground arith)

sum-shared :
    (P : Params) (total : ℕ) (vqs : Store Vq) (ids : List ℕ)
    → All (Holds (IsShared P total) vqs) ids
    → sum_by (at dynamic_rate vqs) ids
      ≤ sum_by (λ i. P.vq_drain_rate_mbps * at (λ vq. vq.weight) vqs i / total) ids
sum-shared P total vqs [] h = omega arith
sum-shared P total vqs (i ∷ ids) ((vq, here, shared), h) =
    let head : at dynamic_rate vqs i ≤ P.vq_drain_rate_mbps * at (λ vq. vq.weight) vqs i / total =
      rw here shared in
    omega (arith, head, sum-shared P total vqs ids h)

sum-weights :
    (vqs vqs' : Store Vq) (ids : List ℕ)
    → ((i : ℕ) → at (λ vq. vq.weight) vqs' i ≡ at (λ vq. vq.weight) vqs i)
    → sum_by (at (λ vq. vq.weight) vqs') ids ≡ sum_by (at (λ vq. vq.weight) vqs) ids
sum-weights vqs vqs' [] h = refl
sum-weights vqs vqs' (i ∷ ids) h = omega (arith, h i, sum-weights vqs vqs' ids h)

-- Where every queue on the list is allocated and the weights add up to more than 0 and less than
-- 2^32, the calculation reads no freed queue, keeps the list and the queues on it, and the rates
-- that it gives the queues without a static rate add up to no more than the drain rate.
pub recalculate_fit :
    (P : Params) (table : VqTable)
    → IsListed table
    → 0 < sum_by (at (λ vq. vq.weight) table.vqs) table.vq_list
    → sum_by (at (λ vq. vq.weight) table.vqs) table.vq_list < 2 ^ 32
    → (table' : VqTable) × (recalculate P table ≡ ok table')
      × IsListed table'
      × (table'.vq_list ≡ table.vq_list)
      × (sum_by (at dynamic_rate table'.vqs) table'.vq_list ≤ P.vq_drain_rate_mbps)
unfolding recalculate
recalculate_fit P table listed positive fits =
    let total = sum_by (at (λ (vq : Vq). vq.weight) table.vqs) table.vq_list in
    let (vqs, run, u) = update_all-Updated (share P total) table.vq_list table.vqs listed in
    let weights =
      sum-weights table.vqs vqs table.vq_list
        (u.same (λ vq. vq.weight) (λ vq. (kept-share P total vq).0)) in
    let shared = u.done (IsShared P total) (λ vq. share-IsShared P total vq positive) in
    (
      record table { vqs = vqs },
      rw (weigh_ok table.vqs table.vq_list listed, mod-eq_of_lt fits, lt→ltb 0 total positive, run)
          refl,
      All-map _ _ u.alloc table.vq_list listed,
      refl,
      le_trans (sum-shared P total vqs table.vq_list shared) (
          shares-le (at (λ vq. vq.weight) vqs) P.vq_drain_rate_mbps total table.vq_list positive
            (omega (arith, weights))),
    )

-- Setting the rate of a queue that is found to a rate from 1 to the drain rate succeeds, and no
-- advertised rate makes the queue aim higher than that rate afterwards.
set_vq_rate_caps :
    (K : Kernel) (P : Params) (klass i r rcp_rate : ℕ) (table : VqTable) (vq : Vq)
    → vq_find K klass table ≡ ok (some i)
    → table.vqs i ≡ some vq
    → 0 < r
    → r ≤ P.vq_drain_rate_mbps
    → (table' : VqTable) × (set_vq_rate K P klass (pos r) table ≡ ok (done, table'))
      × Holds (λ vq'. target_rate vq' rcp_rate ≤ r) table'.vqs i
unfolding set_vq_rate rate_vq update_at target_rate
set_vq_rate_caps K P klass i r rcp_rate table vq found here positive most =
    let capped = set_rate r vq in
    (
      record table { vqs = write table.vqs i capped },
      rw (found, le→ltb P.vq_drain_rate_mbps r most, lt→ltb 0 r positive, here) refl,
      (capped, rw ((==_iff i i).1 refl) refl, ground arith),
    )
