-- ===== src/Examples/Exit.antt =====
-- A device with two classes is given up.
use eyeq.Common.{
  gather, ℕ, ◌≡◌, refl, ◌⊎◌, [], ◌∷◌, none, some, arith, ◌==◌, if◌then◌else◌, Bool-cases, inl, inr,
  ok,
}
use eyeq.Common.Store.{Store, IsAllocated}
use eyeq.Params.{max_buckets}
use eyeq.Tx.{TxClass}
use eyeq.Tx.Exit.{exit_classes}
use eyeq.Tx.Exit.Laws.{IsReleasable, exit_classes-empties}
use eyeq.Tx.Path.{TxDevice}
use eyeq.Tx.States.Accounted.{IsAccounted}
use eyeq.Vq.{Vq}
use eyeq.Examples.Classes.{light, heavy, device as context}
use eyeq.Examples.Traffic.{pool, queue, device, pool-IsComplete, none_there}

-- Class 11 points to the queue at 4.
abbrev attached : TxClass
attached = record heavy { vq = some 4 }

abbrev leaving : TxDevice
leaving = record device.tx {
  context = record context {
    txcs = λ i. if i == 1 then some light else if i == 2 then some attached else none;
  };
}

classes_gathered : gather max_buckets 0 context.iso_tx_bucket ≡ 1 ∷ 2 ∷ []
unfolding gather
classes_gathered = refl

leaving-IsAccounted : IsAccounted leaving.context.iso_tx_bucket [] leaving.context.txcs
leaving-IsAccounted = record {
  once = λ i. rw classes_gathered (elim (Bool-cases (i == 1)) [
    | inl first ↦ rw first (ground (arith, first))
    | inr other ↦ elim (Bool-cases (i == 2)) [
      | inl second ↦ rw (other, second) refl
      | inr neither ↦ rw (other, neither) refl
    ]
  ]);
}

no_class : (v : ℕ) → (x : TxClass) × (none ≡ some x) × (x.vq ≡ some v) → ⊥
no_class v (x, e, points) = none_there (x, e)

pointed_by :
    (txc : TxClass) (v : ℕ)
    → (txc.vq ≡ none) ⊎ (txc.vq ≡ some 4)
    → (x : TxClass) × (some txc ≡ some x) × (x.vq ≡ some v)
    → IsAllocated device.vqs.vqs v
pointed_by txc v (inl nowhere) (x, e, points) = let both : none ≡ some v = cc in absurd (cc)
pointed_by txc v (inr there) (x, e, points) = let name : v ≡ 4 = cc in rw name (queue, refl)

leaving-IsReleasable : IsReleasable (leaving, device.vqs.vqs)
leaving-IsReleasable = record {
  pools = λ i held. elim (Bool-cases (i == 1)) [
    | inl first ↦ rw first (pool, refl, pool-IsComplete)
    | inr other ↦ elim (Bool-cases (i == 2)) [
      | inl second ↦ rw (other, second) (pool, refl, pool-IsComplete)
      | inr neither ↦ absurd (none_there (rw (other, neither) at held))
    ]
  ];
  queues = λ i v held. elim (Bool-cases (i == 1)) [
    | inl first ↦ pointed_by light v (inl refl) (rw first at held)
    | inr other ↦ elim (Bool-cases (i == 2)) [
      | inl second ↦ pointed_by attached v (inr refl) (rw (other, second) at held)
      | inr neither ↦ absurd (no_class v (rw (other, neither) at held))
    ]
  ];
}

exit_classes-empties_example :
    (left : TxDevice) × (vqs' : Store Vq) × (exit_classes leaving device.vqs.vqs ≡ ok (left, vqs'))
    × ((c : ℕ) → left.context.txcs c ≡ none)
    × ((c : ℕ) → IsAllocated leaving.context.txcs c → left.pools c ≡ none)
    × ((v : ℕ) → IsAllocated device.vqs.vqs v → IsAllocated vqs' v)
exit_classes-empties_example =
    exit_classes-empties leaving device.vqs.vqs leaving-IsReleasable leaving-IsAccounted
