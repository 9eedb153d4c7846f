-- ===== src/Config/Queues.antt =====
-- The calls that create, configure and delete virtual queues keep the counts of their references.
use mathlib.Core.Path.{subst}
use eyeq.Common.{
  ℕ, ◌≡◌, refl, sym, ap, ◌∙◌, Option, none, some, arith, ◌==◌, Bool-cases, Option-cases, ==_iff,
  inl, inr, ltb, Result, ok, ◌>>=◌, >>=-eq-ok, ok-inj,
}
use eyeq.Common.Int.{ℤ, pos, negsuc}
use eyeq.Common.Store.{Store, write, free, update_at}
use eyeq.Kernel.{Kernel}
use eyeq.Params.{Params}
use eyeq.Tx.Classes.{Status, done, invalid, exists, no_memory}
use eyeq.Vq.{Vq, vq_init}
use eyeq.Vq.Table.{
  VqTable, vq_find, vq_install, install_missing, vq_alloc, link_vq, recalculate, delete_vq,
  delete_found_vq, vq_free, set_vq_weight, reweigh_vq, set_weight, set_vq_rate, rate_vq, set_rate,
  clear_rate,
}
use eyeq.Config.Frames.{refcnt_of, SameCounts, update_at-same, recalculate-SameCounts}

-- The table of an answer.
abbrev pub VqKept : VqTable → Result (Status × VqTable) → Type 0
VqKept table result =
    (status : Status) (table' : VqTable)
    → result ≡ ok (status, table')
    → SameCounts table.vqs table'.vqs

same-VqKept : (status : Status) (table : VqTable) → VqKept table (ok (status, table))
same-VqKept status table status' table' run =
    subst (λ (t : VqTable). SameCounts table.vqs t.vqs)
      (ap (λ (r : Status × VqTable). r.1) (ok-inj run)) (λ v. refl)

recalculated-VqKept :
    (P : Params) (table begin : VqTable)
    → SameCounts table.vqs begin.vqs
    → VqKept table (recalculate P begin >>= λ table'. ok (done, table'))
recalculated-VqKept P table begin same status table' run =
    let (t, computed, rest) = >>=-eq-ok (recalculate P begin) _ run in
    subst (λ (x : VqTable). SameCounts table.vqs x.vqs)
      (ap (λ (r : Status × VqTable). r.1) (ok-inj rest))
      (λ v. recalculate-SameCounts P begin t computed v ∙ same v)

-- A queue is put where there was none, or taken away where none was counted.
at-fresh :
    (vqs : Store Vq) (i : ℕ) (vq : Vq)
    → vqs i ≡ none
    → vq.refcnt ≡ 0
    → SameCounts vqs (write vqs i vq)
at-fresh vqs i vq fresh zero_count v = elim (Bool-cases (v == i)) [
  | inl same ↦ rw (same, (==_iff v i).0 same, fresh) zero_count
  | inr apart ↦ rw apart refl
]

at-freed :
    (vqs : Store Vq) (i : ℕ) (vq : Vq)
    → vqs i ≡ some vq
    → vq.refcnt ≡ 0
    → SameCounts vqs (free vqs i)
at-freed vqs i vq held zero_count v = elim (Bool-cases (v == i)) [
  | inl same ↦ rw (same, (==_iff v i).0 same, held) (sym zero_count)
  | inr apart ↦ rw apart refl
]

install_missing-VqKept :
    (K : Kernel) (P : Params) (n klass : ℕ) (memory : Option ℕ) (table : VqTable) (found : Option ℕ)
    → ((i : ℕ) → memory ≡ some i → table.vqs i ≡ none)
    → VqKept table (install_missing K P n memory klass table found)
unfolding install_missing vq_alloc link_vq vq_init
install_missing-VqKept K P n klass memory table (some i) fresh = same-VqKept exists table
install_missing-VqKept K P n klass none table none fresh = same-VqKept no_memory table
install_missing-VqKept K P n klass (some i) table none fresh =
    recalculated-VqKept P table (link_vq K i (vq_init K P n klass) table)
      (at-fresh table.vqs i (vq_init K P n klass) (fresh i refl) refl)

pub vq_install-VqKept :
    (K : Kernel) (P : Params) (n klass : ℕ) (memory : Option ℕ) (table : VqTable)
    → ((i : ℕ) → memory ≡ some i → table.vqs i ≡ none)
    → VqKept table (vq_install K P n memory klass table)
unfolding vq_install
vq_install-VqKept K P n klass memory table fresh status table' run =
    let (found, searched, rest) = >>=-eq-ok (vq_find K klass table) _ run in
    install_missing-VqKept K P n klass memory table found fresh status table' rest

-- A change of a queue that keeps its count, and then the shares.
changed-VqKept :
    (P : Params) (f : Vq → Vq) (i : ℕ) (table : VqTable)
    → ((vq : Vq) → refcnt_of (f vq) ≡ refcnt_of vq)
    → VqKept table (
        update_at f i table.vqs >>= λ vqs.
        recalculate P (record table { vqs = vqs }) >>= λ table'. ok (done, table'))
changed-VqKept P f i table keep status table' run =
    let (vqs, updated, rest) = >>=-eq-ok (update_at f i table.vqs) _ run in
    recalculated-VqKept P table (record table { vqs = vqs })
      (update_at-same refcnt_of f i table.vqs vqs keep updated) status table' rest

reweigh_vq-VqKept :
    (P : Params) (weight : ℤ) (table : VqTable) (found : Option ℕ)
    → VqKept table (reweigh_vq P weight table found)
unfolding reweigh_vq
reweigh_vq-VqKept P weight table none = same-VqKept invalid table
reweigh_vq-VqKept P (negsuc w) table (some i) = same-VqKept invalid table
reweigh_vq-VqKept P (pos w) table (some i) = elim (Bool-cases (ltb 1024 w)) [
  | inl large ↦ rw large (same-VqKept invalid table)
  | inr fits ↦ rw fits (changed-VqKept P (set_weight w) i table (λ vq. refl))
]

pub set_vq_weight-VqKept :
    (K : Kernel) (P : Params) (klass : ℕ) (weight : ℤ) (table : VqTable)
    → VqKept table (set_vq_weight K P klass weight table)
unfolding set_vq_weight
set_vq_weight-VqKept K P klass weight table status table' run =
    let (found, searched, rest) = >>=-eq-ok (vq_find K klass table) _ run in
    reweigh_vq-VqKept P weight table found status table' rest

rate_vq-VqKept :
    (P : Params) (rate : ℤ) (table : VqTable) (found : Option ℕ)
    → VqKept table (rate_vq P rate table found)
unfolding rate_vq
rate_vq-VqKept P rate table none = same-VqKept invalid table
rate_vq-VqKept P (negsuc r) table (some i) = same-VqKept invalid table
rate_vq-VqKept P (pos r) table (some i) = elim (Bool-cases (ltb P.vq_drain_rate_mbps r)) [
  | inl large ↦ rw large (same-VqKept invalid table)
  | inr fits ↦ elim (Bool-cases (ltb 0 r)) [
    | inl some_rate ↦
        rw (fits, some_rate)
          (λ status table' run.
            let (vqs, updated, rest) = >>=-eq-ok (update_at (set_rate r) i table.vqs) _ run in
            subst (λ (t : VqTable). SameCounts table.vqs t.vqs)
              (ap (λ (r : Status × VqTable). r.1) (ok-inj rest))
              (update_at-same refcnt_of (set_rate r) i table.vqs vqs (λ vq. refl) updated))
    | inr no_rate ↦ rw (fits, no_rate) (changed-VqKept P clear_rate i table (λ vq. refl))
  ]
]

pub set_vq_rate-VqKept :
    (K : Kernel) (P : Params) (klass : ℕ) (rate : ℤ) (table : VqTable)
    → VqKept table (set_vq_rate K P klass rate table)
unfolding set_vq_rate
set_vq_rate-VqKept K P klass rate table status table' run =
    let (found, searched, rest) = >>=-eq-ok (vq_find K klass table) _ run in
    rate_vq-VqKept P rate table found status table' rest

delete_found_vq-VqKept :
    (table : VqTable) (found : Option ℕ) → VqKept table (delete_found_vq table found)
unfolding delete_found_vq vq_free
delete_found_vq-VqKept table none = same-VqKept invalid table
delete_found_vq-VqKept table (some i) = elim (Option-cases (table.vqs i)) [
  | inl gone ↦ rw gone (λ status table' run. absurd (cc run))
  | inr (vq, held) ↦ elim (Bool-cases (ltb 0 vq.refcnt)) [
    | inl counted ↦ rw (held, counted) (same-VqKept invalid table)
    | inr free_now ↦
        rw (held, free_now)
          (λ status table' run.
            subst (λ (t : VqTable). SameCounts table.vqs t.vqs)
              (ap (λ (r : Status × VqTable). r.1) (ok-inj run))
              (at-freed table.vqs i vq held (ground (arith, free_now))))
  ]
]

pub delete_vq-VqKept :
    (K : Kernel) (klass : ℕ) (table : VqTable) → VqKept table (delete_vq K klass table)
unfolding delete_vq
delete_vq-VqKept K klass table status table' run =
    let (found, searched, rest) = >>=-eq-ok (vq_find K klass table) _ run in
    delete_found_vq-VqKept table found status table' rest
