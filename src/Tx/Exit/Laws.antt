-- ===== src/Tx/Exit/Laws.antt =====
-- A device is given up with all its classes.
use eyeq.Common.{
  ℕ, zero, suc, ◌+◌, ◌-◌, ◌≤◌, ◌≡◌, refl, ap, ◌∙◌, List, [], ◌∷◌, ◌++◌, arith, count, same,
  count-append, gather, ◌==◌, Bool-cases, ==_iff, Option-cases, inl, inr, some, none, Option, ok,
}
use eyeq.Common.Store.{
  Store, IsAllocated, Holds, at, free, measure_of, write-IsAllocated, write, update_at,
}
use eyeq.Config.{release}
use eyeq.Params.{max_buckets}
use eyeq.Tx.{TxClass}
use eyeq.Tx.Free.{txc_free, no_entries}
use eyeq.Tx.Free.Laws.{one}
use eyeq.Tx.Free.Pools.{free_pool-empties}
use eyeq.Tx.Path.{TxDevice}
use eyeq.Tx.Exit.{free_classes, free_rows, exit_classes}
use eyeq.Tx.States.Accounted.{IsAccounted}
use eyeq.Tx.States.Complete.{IsComplete}
use eyeq.Vq.{Vq}

-- Classes that can be released: each has complete pools, and the queue that it points to is allocated.
pub record IsReleasable (s : TxDevice × Store Vq) : Type 0 where
  pub pools : (i : ℕ) → IsAllocated s.0.context.txcs i → Holds IsComplete s.0.pools i
  pub queues : (i v : ℕ) → Holds (λ txc. txc.vq ≡ some v) s.0.context.txcs i → IsAllocated s.1 v

-- The classes at `ids` and their pools are released, once, and nothing else.
pub record IsCleared (ids : List ℕ) (s t : TxDevice × Store Vq) : Type 0 where
  pub left : (i : ℕ) → at one t.0.context.txcs i + count i ids ≡ at one s.0.context.txcs i
  pub older :
      (i : ℕ) (txc : TxClass) → t.0.context.txcs i ≡ some txc → s.0.context.txcs i ≡ some txc
  pub dropped : (i : ℕ) → 1 ≤ count i ids → t.0.pools i ≡ none
  pub others : (i : ℕ) → count i ids ≡ 0 → t.0.pools i ≡ s.0.pools i
  pub queues : (v : ℕ) → IsAllocated s.1 v → IsAllocated t.1 v

release-kept :
    (vq : Option ℕ) (vqs : Store Vq)
    → ((v : ℕ) → vq ≡ some v → IsAllocated vqs v)
    → (vqs' : Store Vq) × (release vq vqs ≡ ok vqs')
      × ((v : ℕ) → IsAllocated vqs v → IsAllocated vqs' v)
unfolding release update_at
release-kept none vqs h = (vqs, refl, λ v held. held)
release-kept (some q) vqs h =
    let (vq, here) = h q refl in
    (
      write vqs q (record vq { refcnt = vq.refcnt - 1 }),
      rw here refl,
      write-IsAllocated vqs q (record vq { refcnt = vq.refcnt - 1 }),
    )

IsCleared-none : (s : TxDevice × Store Vq) → IsCleared [] s s
IsCleared-none s = record {
  left = λ i. omega arith;
  older = λ i txc here. here;
  dropped = λ i some_there. absurd (omega (arith, some_there));
  others = λ i gone. refl;
  queues = λ v held. held;
}

IsCleared-append :
    (xs ys : List ℕ) (s t u : TxDevice × Store Vq)
    → IsCleared xs s t
    → IsCleared ys t u
    → IsCleared (xs ++ ys) s u
IsCleared-append xs ys s t u f g = record {
  left = λ i. omega (arith, f.left i, g.left i, count-append i xs ys);
  older = λ i txc here. f.older i txc (g.older i txc here);
  dropped = λ i some_there. elim (Bool-cases (count i ys == 0)) [
    | inl absent ↦
        let absent' : count i ys ≡ 0 = (==_iff (count i ys) 0).0 absent in
        g.others i absent' ∙ f.dropped i (omega (arith, some_there, absent', count-append i xs ys))
    | inr present ↦ g.dropped i (ground (arith, present))
  ];
  others = λ i gone.
      g.others i (omega (arith, gone, count-append i xs ys))
      ∙ f.others i (omega (arith, gone, count-append i xs ys));
  queues = λ v held. g.queues v (f.queues v held);
}

at_one_small : {A : Type 0} (s : Store A) (i : ℕ) → at one s i ≤ 1
at_one_small s i = elim (Option-cases (s i)) [
  | inl gone ↦ omega (arith, ap (measure_of one) gone)
  | inr (a, here) ↦ omega (arith, ap (measure_of one) here)
]

absent : {A : Type 0} (s : Store A) (i : ℕ) → at one s i ≡ 0 → s i ≡ none
absent s i h = elim (Option-cases (s i)) [
  | inl gone ↦ gone
  | inr (a, here) ↦ absurd (omega (arith, ap (measure_of one) here, h))
]

IsReleasable-kept :
    (ids : List ℕ) (s t : TxDevice × Store Vq) → IsReleasable s → IsCleared ids s t → IsReleasable t
IsReleasable-kept ids s t r f = record {
  pools = λ i held.
      let (txc, here) = held in
      let (pool, there, complete) = r.pools i (txc, f.older i txc here) in
      (
        pool,
        f.others i
              (omega (arith, ap (measure_of one) here, f.left i, at_one_small s.0.context.txcs i))
            ∙ there,
        complete,
      );
  queues = λ i v held.
      let (txc, here, points) = held in f.queues v (r.queues i v (txc, f.older i txc here, points));
}

-- One class.
txc_free-IsCleared :
    (c : ℕ) (s : TxDevice × Store Vq)
    → IsReleasable s
    → 1 ≤ at one s.0.context.txcs c
    → (t : TxDevice × Store Vq) × (txc_free c s.0 s.1 ≡ ok t) × IsCleared (c ∷ []) s t
unfolding txc_free
txc_free-IsCleared c (device, vqs) r some_there = elim (Option-cases (device.context.txcs c)) [
  | inl gone ↦ absurd (omega (arith, ap (measure_of one) gone, some_there))
  | inr (txc, here) ↦
      let (pool, there, complete) = r.pools c (txc, here) in
      let (pool', run, no_rls, no_states) = free_pool-empties pool complete.tidy in
      let (vqs', released, kept) =
        release-kept txc.vq vqs (λ v points. r.queues c v (txc, here, points)) in
      let context = device.context in
      (
        (
          record device {
            context = record context { txcs = free context.txcs c };
            pools = free device.pools c;
          },
          vqs',
        ),
        rw (here, there, run, released) refl,
        record {
          left = λ i. elim (Bool-cases (i == c)) [
            | inl e ↦
                let name : i ≡ c = (==_iff i c).0 e in
                rw e (omega (arith, ap (measure_of one) here, ap (λ k. at one context.txcs k) name))
            | inr e ↦ rw e (omega arith)
          ];
          older = λ i old still. elim (Bool-cases (i == c)) [
            | inl e ↦ let gone : none ≡ some old = rw e at still in absurd (cc)
            | inr e ↦ rw e at still
          ];
          dropped = λ i named. elim (Bool-cases (i == c)) [
            | inl e ↦ rw e refl
            | inr e ↦ absurd (omega (arith, rw e at named))
          ];
          others = λ i other. elim (Bool-cases (i == c)) [
            | inl e ↦ absurd (omega (arith, rw e at other))
            | inr e ↦ rw e refl
          ];
          queues = kept;
        },
      )
]

free_classes-IsCleared :
    (ids : List ℕ) (s : TxDevice × Store Vq)
    → IsReleasable s
    → ((i : ℕ) → count i ids ≤ at one s.0.context.txcs i)
    → (t : TxDevice × Store Vq) × (free_classes ids s ≡ ok t) × IsCleared ids s t
unfolding free_classes
free_classes-IsCleared [] s r h = (s, refl, IsCleared-none s)
free_classes-IsCleared (c ∷ rest) s r h =
    let first : 1 ≤ at one s.0.context.txcs c =
      let here : same c c ≡ 1 = rw ((==_iff c c).1 refl) refl in omega (arith, h c, here) in
    let (t, run, f) = txc_free-IsCleared c s r first in
    let (u, runs, g) =
      free_classes-IsCleared rest t (IsReleasable-kept (c ∷ []) s t r f)
        (λ i. omega (arith, h i, f.left i)) in
    (u, rw run runs, IsCleared-append (c ∷ []) rest s t u f g)

free_rows-IsCleared :
    (left b : ℕ) (buckets : ℕ → List ℕ) (s : TxDevice × Store Vq)
    → IsReleasable s
    → ((i : ℕ) → count i (gather left b buckets) ≤ at one s.0.context.txcs i)
    → (t : TxDevice × Store Vq) × (free_rows left b buckets s ≡ ok t)
      × IsCleared (gather left b buckets) s t
unfolding free_rows gather
free_rows-IsCleared zero b buckets s r h = (s, refl, IsCleared-none s)
free_rows-IsCleared (suc left) b buckets s r h =
    let rest = gather left (suc b) buckets in
    let (t, run, f) =
      free_classes-IsCleared (buckets b) s r
        (λ i. omega (arith, h i, count-append i (buckets b) rest)) in
    let (u, runs, g) =
      free_rows-IsCleared left (suc b) buckets t (IsReleasable-kept (buckets b) s t r f)
        (λ i. omega (arith, h i, count-append i (buckets b) rest, f.left i)) in
    (u, rw run runs, IsCleared-append (buckets b) rest s t u f g)

-- `iso_tx_exit` releases every class of the device with its pools, each once, and no queue: no read on
-- the way is of an object that was freed, no class is left and none of their pools, and the queues are
-- allocated as before. (Each class stands in one bucket, has complete pools, and the queue that it
-- points to is allocated.)
pub exit_classes-empties :
    (device : TxDevice) (vqs : Store Vq)
    → IsReleasable (device, vqs)
    → IsAccounted device.context.iso_tx_bucket [] device.context.txcs
    → (left : TxDevice) × (vqs' : Store Vq) × (exit_classes device vqs ≡ ok (left, vqs'))
      × ((c : ℕ) → left.context.txcs c ≡ none)
      × ((c : ℕ) → IsAllocated device.context.txcs c → left.pools c ≡ none)
      × ((v : ℕ) → IsAllocated vqs v → IsAllocated vqs' v)
unfolding exit_classes
exit_classes-empties device vqs r v =
    let ((left, vqs'), run, f) =
      free_rows-IsCleared max_buckets 0 device.context.iso_tx_bucket (device, vqs) r
        (λ i. omega (arith, v.once i)) in
    let context = left.context in
    (
      record left { context = record context { iso_tx_bucket = no_entries } },
      vqs',
      rw run refl,
      λ c. absent left.context.txcs c (omega (arith, v.once c, f.left c)),
      λ c held.
          let (txc, here) = held in f.dropped c (omega (arith, v.once c, ap (measure_of one) here)),
      f.queues,
    )
