-- ===== src/Config/Frames.antt =====
-- What the operations on classes and queues leave alone: which class points to which queue, and the
-- counts of the references.
use mathlib.Core.Path.{subst}
use eyeq.Common.{
  ◌%◌, ◌^◌, arith, ℕ, ◌≡◌, refl, sym, ap, ◌∙◌, List, [], ◌∷◌, Option, none, some, ◌==◌,
  if◌then◌else◌, Option-cases, Bool-cases, ==_iff, inl, inr, ok, >>=-eq-ok, ok-inj, ltb,
}
use eyeq.Common.Store.{Store, at, write, update_at, update_all}
use eyeq.Params.{Params}
use eyeq.Tx.{TxClass, TxContext, recompute_rates, guarantee}
use eyeq.Vq.{Vq}
use eyeq.Vq.Rates.{share}
use eyeq.Vq.Table.{VqTable, weigh, recalculate}

module _ {A : Type 0} (w : A → ℕ) where
  -- A write that keeps a measure.
  pub at-write :
      (s : Store A) (i : ℕ) (a b : A)
      → s i ≡ some a
      → w b ≡ w a
      → (j : ℕ) → at w (write s i b) j ≡ at w s j
  at-write s i a b e same j = elim (Bool-cases (j == i)) [
    | inl here ↦ rw (here, (==_iff j i).0 here, e) same
    | inr there ↦ rw there refl
  ]

  pub update_at-same :
      (f : A → A) (i : ℕ) (s s' : Store A)
      → ((a : A) → w (f a) ≡ w a)
      → update_at f i s ≡ ok s'
      → (j : ℕ) → at w s' j ≡ at w s j
  unfolding update_at
  update_at-same f i s s' keep run j = elim (Option-cases (s i)) [
    | inl gone ↦ absurd (cc (rw gone at run))
    | inr (a, held) ↦
        let written : write s i (f a) ≡ s' = ok-inj (rw held at run) in
        rw (← written) (at-write s i a (f a) held (keep a) j)
  ]

  pub update_all-same :
      (f : A → A) (ids : List ℕ) (s s' : Store A)
      → ((a : A) → w (f a) ≡ w a)
      → update_all f ids s ≡ ok s'
      → (j : ℕ) → at w s' j ≡ at w s j
  unfolding update_all
  update_all-same f [] s s' keep run j = ap (λ (t : Store A). at w t j) (sym (ok-inj run))
  update_all-same f (i ∷ rest) s s' keep run j =
      let (s1, first, later) = >>=-eq-ok (update_at f i s) (update_all f rest) run in
      update_all-same f rest s1 s' keep later j ∙ update_at-same f i s s1 keep first j

-- The references of a class to the queue at `v`: none or one.
abbrev pub refers : ℕ → Option ℕ → ℕ
refers v none = 0
refers v (some u) = if u == v then 1 else 0

abbrev pub points_to : ℕ → TxClass → ℕ
points_to v txc = refers v txc.vq

abbrev pub one : TxClass → ℕ
one txc = 1

abbrev pub refcnt_of : Vq → ℕ
refcnt_of vq = vq.refcnt

-- The same classes point to the same queues.
pub record SamePointers (s s' : Store TxClass) : Type 0 where
  pub pointers : (v j : ℕ) → at (points_to v) s' j ≡ at (points_to v) s j
  pub alive : (j : ℕ) → at one s' j ≡ at one s j

pub SamePointers-refl : (s : Store TxClass) → SamePointers s s
SamePointers-refl s = record { pointers = λ v j. refl; alive = λ j. refl }

pub SamePointers-trans :
    (a b c : Store TxClass) → SamePointers a b → SamePointers b c → SamePointers a c
SamePointers-trans a b c x y = record {
  pointers = λ v j. y.pointers v j ∙ x.pointers v j;
  alive = λ j. y.alive j ∙ x.alive j;
}

abbrev pub SameCounts : Store Vq → Store Vq → Type 0
SameCounts s s' = (v : ℕ) → at refcnt_of s' v ≡ at refcnt_of s v

pub recompute_rates-SamePointers :
    (P : Params) (context context' : TxContext)
    → recompute_rates P context ≡ ok context'
    → SamePointers context.txcs context'.txcs
unfolding recompute_rates guarantee
recompute_rates-SamePointers P context context' run =
    elim (Bool-cases (context.txc_total_weight == 0)) [
      | inl no_weight ↦
          let same : context ≡ context' = ok-inj (rw no_weight at run) in
          subst (λ (c : TxContext). SamePointers context.txcs c.txcs) same
            (SamePointers-refl context.txcs)
      | inr weight ↦
          let (txcs, updated, rest) =
            >>=-eq-ok (update_all _ context.txc_list context.txcs) _ (rw weight at run) in
          let same : record context { txcs = txcs } ≡ context' = ok-inj rest in
          subst (λ (c : TxContext). SamePointers context.txcs c.txcs) same
            (record {
              pointers = λ v.
                  update_all-same (points_to v) _ context.txc_list context.txcs txcs (λ a. refl)
                    updated;
              alive = update_all-same one _ context.txc_list context.txcs txcs (λ a. refl) updated;
            })
    ]

refcnt-share : (P : Params) (total : ℕ) (vq : Vq) → (share P total vq).refcnt ≡ vq.refcnt
unfolding share
refcnt-share P total vq = ground arith

pub recalculate-SameCounts :
    (P : Params) (table table' : VqTable)
    → recalculate P table ≡ ok table'
    → SameCounts table.vqs table'.vqs
unfolding recalculate
recalculate-SameCounts P table table' run =
    let (weight, weighed, rest) = >>=-eq-ok (weigh table.vqs table.vq_list) _ run in
    elim (Bool-cases (ltb 0 (weight % 2 ^ 32))) [
      | inl some_weight ↦
          let (vqs, updated, last) =
            >>=-eq-ok (update_all _ table.vq_list table.vqs) _ (rw some_weight at rest) in
          let same : record table { vqs = vqs } ≡ table' = ok-inj last in
          subst (λ (t : VqTable). SameCounts table.vqs t.vqs) same
            (update_all-same refcnt_of _ table.vq_list table.vqs vqs
              (refcnt-share P (weight % 2 ^ 32)) updated)
      | inr no_weight ↦
          let same : table ≡ table' = ok-inj (rw no_weight at rest) in
          subst (λ (t : VqTable). SameCounts table.vqs t.vqs) same (λ v. refl)
    ]
