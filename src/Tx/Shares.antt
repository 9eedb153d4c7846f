-- ===== src/Tx/Shares.antt =====
-- The guarantees of `iso_txc_recompute_rates`: how the classes of a device share its rate.
use native.Mathlib.Nat.{le_trans, div-le_self, mod-eq_of_lt, mul_comm}
use eyeq.Common.{
  ℕ, ◌*◌, ◌/◌, ◌^◌, ◌≤◌, ◌<◌, ◌≡◌, refl, sym, ap, ◌∙◌, ◌⊎◌, inl, inr, List, [], ◌∷◌, arith, ◌==◌,
  if◌then◌else◌, ok, sum_by, All, All-map, shares-le, Bool-cases, ==_iff, min_of,
}
use eyeq.Common.Int.{signed32_small}
use eyeq.Common.Store.{Store, IsAllocated, Holds, at, measure_of, update_all-Updated}
use eyeq.Params.{Params}
use eyeq.Tx.{TxClass, TxContext, guarantee, recompute_rates}

-- Every class on the list is allocated, and the total weight is that of the list.
pub record IsValid (context : TxContext) : Type 0 where
  pub allocated : All (IsAllocated context.txcs) context.txc_list
  pub total :
      context.txc_total_weight ≡ sum_by (at (λ txc. txc.weight) context.txcs) context.txc_list

-- A class's guarantee is its weight's part of the device's rate, rounded down, and its limiter is set
-- to the guarantee, or to the class's cap if that is lower.
pub record IsGuaranteed (P : Params) (total : ℕ) (txc : TxClass) : Type 0 where
  pub part : txc.min_rate ≡ P.max_tx_rate * txc.weight / total
  pub limited :
      txc.rl.rate ≡ (if txc.is_static then min_of txc.max_rate txc.min_rate else txc.min_rate)

-- The product with the device's rate does not wrap.
abbrev pub IsSmall : Params → TxClass → Type 0
IsSmall P txc = P.max_tx_rate * txc.weight < 2 ^ 31

-- A class after its guarantee was computed, where no `int` wraps.
abbrev pub IsComputed : Params → ℕ → TxClass → Type 0
IsComputed P total txc = total < 2 ^ 31 → IsSmall P txc → IsGuaranteed P total txc

guarantee-IsComputed :
    (P : Params) (total : ℕ) (txc : TxClass) → IsComputed P total (guarantee P total txc)
unfolding guarantee
guarantee-IsComputed P total txc fits small = record { part = whole; limited = refl }
  where
    whole : (guarantee P total txc).min_rate ≡ P.max_tx_rate * txc.weight / total
    whole =
        let product = P.max_tx_rate * txc.weight in
        let below : product / total < 2 ^ 32 = omega (arith, div-le_self product total, small) in
        rw
          (
            mul_comm txc.weight P.max_tx_rate,
            mod-eq_of_lt {n = product} {m = 2 ^ 32} (omega (arith, small)),
            mod-eq_of_lt {n = total} {m = 2 ^ 32} (omega (arith, fits)),
            signed32_small product small,
            signed32_small total fits,
          )
          (mod-eq_of_lt below)

-- What a computation of the rates keeps of the classes.
pub record IsKept (s s' : Store TxClass) : Type 0 where
  pub alloc : (i : ℕ) → IsAllocated s i → IsAllocated s' i
  pub weights : (i : ℕ) → at (λ txc. txc.weight) s' i ≡ at (λ txc. txc.weight) s i
  pub classes : (i : ℕ) → at (λ txc. txc.klass) s' i ≡ at (λ txc. txc.klass) s i

kept-guarantee :
    (P : Params) (total : ℕ) (txc : TxClass)
    → ((guarantee P total txc).weight ≡ txc.weight) × ((guarantee P total txc).klass ≡ txc.klass)
unfolding guarantee
kept-guarantee P total txc = (refl, refl)

pub recompute_ok :
    (P : Params) (context : TxContext)
    → All (IsAllocated context.txcs) context.txc_list
    → (txcs : Store TxClass) × (recompute_rates P context ≡ ok (record context { txcs = txcs }))
      × IsKept context.txcs txcs
      × ((context.txc_total_weight ≡ 0)
          ⊎ All (Holds (IsComputed P context.txc_total_weight) txcs) context.txc_list)
unfolding recompute_rates
recompute_ok P context h =
    let total = context.txc_total_weight in
    elim (Bool-cases (total == 0)) [
      | inl none_left ↦ (
        context.txcs,
        rw none_left refl,
        record { alloc = λ i a. a; weights = λ i. refl; classes = λ i. refl },
        inl ((==_iff total 0).0 none_left),
      )
      | inr some_left ↦
          let (txcs, run, u) =
            update_all-Updated (guarantee P total) context.txc_list context.txcs h in
          (
            txcs,
            rw (some_left, run) refl,
            record {
              alloc = u.alloc;
              weights = u.same (λ txc. txc.weight) (λ txc. (kept-guarantee P total txc).0);
              classes = u.same (λ txc. txc.klass) (λ txc. (kept-guarantee P total txc).1);
            },
            inr (u.done (IsComputed P total) (guarantee-IsComputed P total)),
          )
    ]

sum-at :
    (w : TxClass → ℕ) (s s' : Store TxClass) (ids : List ℕ)
    → ((i : ℕ) → at w s' i ≡ at w s i)
    → sum_by (at w s') ids ≡ sum_by (at w s) ids
sum-at w s s' [] h = refl
sum-at w s s' (i ∷ ids) h = omega (arith, h i, sum-at w s s' ids h)

pub kept-IsValid :
    (context : TxContext) (txcs : Store TxClass)
    → IsValid context
    → IsKept context.txcs txcs
    → IsValid (record context { txcs = txcs })
kept-IsValid context txcs v k = record {
  allocated = All-map _ _ k.alloc context.txc_list v.allocated;
  total = v.total ∙ sym (sum-at (λ txc. txc.weight) context.txcs txcs context.txc_list k.weights);
}

sum-part :
    (P : Params) (total : ℕ) (s : Store TxClass) (ids : List ℕ)
    → All (Holds (IsGuaranteed P total) s) ids
    → sum_by (at (λ txc. txc.min_rate) s) ids
      ≤ sum_by (λ i. P.max_tx_rate * at (λ txc. txc.weight) s i / total) ids
sum-part P total s [] h = omega arith
sum-part P total s (i ∷ ids) ((txc, e, g), h) =
    let head : at (λ txc. txc.min_rate) s i ≤ P.max_tx_rate * at (λ txc. txc.weight) s i / total =
      rw (e, g.part) (omega arith) in
    omega (arith, head, sum-part P total s ids h)

-- The guarantees of the classes at `ids`, whose weights are what they were.
computed-IsGuaranteed :
    (P : Params) (total : ℕ) (s s' : Store TxClass) (ids : List ℕ)
    → total < 2 ^ 31
    → ((i : ℕ) → at (λ txc. txc.weight) s' i ≡ at (λ txc. txc.weight) s i)
    → All (Holds (IsSmall P) s) ids
    → All (Holds (IsComputed P total) s') ids
    → All (Holds (IsGuaranteed P total) s') ids
computed-IsGuaranteed P total s s' [] fits kept small h = tt
computed-IsGuaranteed P total s s' (i ∷ ids) fits kept ((old, was, bound), small)
      ((txc, here, g), h) =
    let same : txc.weight ≡ old.weight =
      ap (measure_of (λ (t : TxClass). t.weight)) (sym here)
      ∙ kept i
      ∙ ap (measure_of (λ (t : TxClass). t.weight)) was in
    ((txc, here, g fits (rw same bound)), computed-IsGuaranteed P total s s' ids fits kept small h)

-- In a valid context whose weights are not all zero the rates can be computed: no freed class is
-- read, the context stays valid, the guarantees of all classes add up to no more than the device's
-- rate, and each class gets its weight's part of it as guarantee and limit, up to its cap. (The total
-- weight, and each class's weight times the rate, are below 2^31.)
pub recompute_rates_fit :
    (P : Params) (context : TxContext)
    → IsValid context
    → 0 < context.txc_total_weight
    → context.txc_total_weight < 2 ^ 31
    → All (Holds (IsSmall P) context.txcs) context.txc_list
    → (context' : TxContext) × (recompute_rates P context ≡ ok context')
      × IsValid context'
      × (sum_by (at (λ txc. txc.min_rate) context'.txcs) context'.txc_list ≤ P.max_tx_rate)
      × All (Holds (IsGuaranteed P context.txc_total_weight) context'.txcs) context'.txc_list
recompute_rates_fit P context v some_left fits small =
    let (txcs, run, kept, result) = recompute_ok P context v.allocated in
    let v' = kept-IsValid context txcs v kept in
    let total = context.txc_total_weight in
    elim result [
      | inl none_left ↦ absurd (omega arith)
      | inr computed ↦
          let g =
            computed-IsGuaranteed P total context.txcs txcs context.txc_list fits kept.weights small
              computed in
          (
            record context { txcs = txcs },
            run,
            v',
            le_trans (sum-part P total txcs context.txc_list g) (
                shares-le (at (λ txc. txc.weight) txcs) P.max_tx_rate total context.txc_list
                  some_left (omega (arith, v'.total))),
            g,
          )
    ]
