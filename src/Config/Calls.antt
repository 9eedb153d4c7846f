-- ===== src/Config/Calls.antt =====
-- The calls that configure classes keep which class points to which queue.
use mathlib.Core.Path.{subst}
use eyeq.Common.{
  ℕ, ◌≡◌, refl, ap, Option, none, some, ◌==◌, Bool-cases, Option-cases, inl, inr, ltb, Result, ok,
  ◌>>=◌, >>=-eq-ok, ok-inj,
}
use eyeq.Common.Int.{ℤ, pos, negsuc}
use eyeq.Common.Store.{update_at}
use eyeq.Kernel.{Kernel}
use eyeq.Params.{Params}
use eyeq.Tx.{TxClass, TxContext, recompute_rates}
use eyeq.Tx.Classes.{
  Status, done, invalid, txc_find, set_txc_weight, set_weight_found, reweigh, set_txc_rate,
  set_rate_found, cap_rate,
}
use eyeq.Config.Frames.{
  points_to, one, SamePointers, SamePointers-refl, SamePointers-trans, at-write, update_at-same,
  recompute_rates-SamePointers,
}

-- The context of an answer.
abbrev pub TxKept : TxContext → Result (Status × TxContext) → Type 0
TxKept context result =
    (status : Status) (context' : TxContext)
    → result ≡ ok (status, context')
    → SamePointers context.txcs context'.txcs

same-TxKept : (status : Status) (context : TxContext) → TxKept context (ok (status, context))
same-TxKept status context status' context' run =
    subst (λ (c : TxContext). SamePointers context.txcs c.txcs)
      (ap (λ (r : Status × TxContext). r.1) (ok-inj run)) (SamePointers-refl context.txcs)

-- A chain that ends in the computation of the rates.
recomputed-TxKept :
    (P : Params) (context begin : TxContext)
    → SamePointers context.txcs begin.txcs
    → TxKept context (recompute_rates P begin >>= λ context'. ok (done, context'))
recomputed-TxKept P context begin same status context' run =
    let (c, computed, rest) = >>=-eq-ok (recompute_rates P begin) _ run in
    subst (λ (x : TxContext). SamePointers context.txcs x.txcs)
      (ap (λ (r : Status × TxContext). r.1) (ok-inj rest))
      (SamePointers-trans context.txcs begin.txcs c.txcs same
        (recompute_rates-SamePointers P begin c computed))

set_weight_found-TxKept :
    (P : Params) (weight : ℤ) (context : TxContext) (found : Option ℕ)
    → TxKept context (set_weight_found P weight context found)
unfolding set_weight_found reweigh
set_weight_found-TxKept P weight context none = same-TxKept invalid context
set_weight_found-TxKept P (negsuc w) context (some i) = same-TxKept invalid context
set_weight_found-TxKept P (pos w) context (some i) = elim (Bool-cases (ltb 1024 w)) [
  | inl large ↦ rw large (same-TxKept invalid context)
  | inr fits ↦ rw fits (elim (Option-cases (context.txcs i)) [
    | inl gone ↦ rw gone (λ status context' run. absurd (cc run))
    | inr (txc, held) ↦ rw held (
        recomputed-TxKept P context _ (record {
          pointers = λ v. at-write (points_to v) context.txcs i txc _ held refl;
          alive = at-write one context.txcs i txc _ held refl;
        }))
  ])
]

pub set_txc_weight-TxKept :
    (K : Kernel) (P : Params) (klass : ℕ) (weight : ℤ) (context : TxContext)
    → TxKept context (set_txc_weight K P klass weight context)
unfolding set_txc_weight
set_txc_weight-TxKept K P klass weight context status context' run =
    let (found, searched, rest) = >>=-eq-ok (txc_find K klass context) _ run in
    set_weight_found-TxKept P weight context found status context' rest

pointers-cap_rate :
    (P : Params) (rate v : ℕ) (txc : TxClass) → points_to v (cap_rate P rate txc) ≡ points_to v txc
unfolding cap_rate
pointers-cap_rate P rate v txc = elim (Bool-cases (rate == 0)) [
  | inl none_set ↦ rw none_set refl
  | inr capped ↦ rw capped refl
]

set_rate_found-TxKept :
    (P : Params) (rate : ℤ) (context : TxContext) (found : Option ℕ)
    → TxKept context (set_rate_found P rate context found)
unfolding set_rate_found
set_rate_found-TxKept P rate context none = same-TxKept invalid context
set_rate_found-TxKept P (negsuc r) context (some i) = same-TxKept invalid context
set_rate_found-TxKept P (pos r) context (some i) = elim (Bool-cases (ltb 1024 r)) [
  | inl large ↦ rw large (same-TxKept invalid context)
  | inr fits ↦ rw fits (λ status context' run.
      let (txcs, updated, rest) = >>=-eq-ok (update_at (cap_rate P r) i context.txcs) _ run in
      recomputed-TxKept P context (record context { txcs = txcs })
        (record {
          pointers = λ v.
              update_at-same (points_to v) _ i context.txcs txcs (pointers-cap_rate P r v) updated;
          alive = update_at-same one _ i context.txcs txcs (λ a. refl) updated;
        })
        status context' rest)
]

pub set_txc_rate-TxKept :
    (K : Kernel) (P : Params) (klass : ℕ) (rate : ℤ) (context : TxContext)
    → TxKept context (set_txc_rate K P klass rate context)
unfolding set_txc_rate
set_txc_rate-TxKept K P klass rate context status context' run =
    let (found, searched, rest) = >>=-eq-ok (txc_find K klass context) _ run in
    set_rate_found-TxKept P rate context found status context' rest
