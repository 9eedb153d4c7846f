-- ===== src/Config/Requests.antt =====
-- Requests to a system of devices, one after the other.
use mathlib.Core.Path.{subst}
use eyeq.Common.{
  ℕ, ◌≡◌, refl, ap, Bool, true, false, List, [], ◌∷◌, Option, none, some, ◌==◌, if◌then◌else◌, All,
  All-map, Result, ok, ◌>>=◌, >>=-eq-ok, ok-inj,
}
use eyeq.Common.Int.{ℤ}
use eyeq.Kernel.{Kernel}
use eyeq.Params.{Params}
use eyeq.Tx.{TxContext, recompute_rates}
use eyeq.Tx.Classes.{Status, invalid, done, txc_find, install}
use eyeq.Vq.Table.{VqTable, recalculate}
use eyeq.Config.{
  NetDevice, Request, create_txc, create_vq, assoc_txc_vq, weigh_txc, limit_txc, weigh_vq, limit_vq,
  remove_txc, remove_vq, recompute_dev, with_context, with_table, on_device, on_class, on_value,
  on_pair, recompute, drop_class, handle,
}
use eyeq.Config.Frames.{SamePointers-refl, recompute_rates-SamePointers, recalculate-SameCounts}
use eyeq.Config.Counts.{frame-IsCounted}
use eyeq.Config.Calls.{TxKept, set_txc_weight-TxKept, set_txc_rate-TxKept}
use eyeq.Config.Queues.{
  VqKept, vq_install-VqKept, set_vq_weight-VqKept, set_vq_rate-VqKept, delete_vq-VqKept,
}
use eyeq.Config.References.{Counted, Keeps, assoc-Keeps, drop_class-Keeps, install-Counted}

-- The memory that a request is given is not in use.
abbrev pub Fresh : Request → NetDevice → Type 0
Fresh (create_txc name klass n memory) dev = (i : ℕ) → memory ≡ some i → dev.context.txcs i ≡ none
Fresh (create_vq name klass n memory) dev = (i : ℕ) → memory ≡ some i → dev.table.vqs i ≡ none
Fresh _ dev = Unit {0}

-- The answer of a call on classes, or on queues.
context-Keeps :
    (dev : NetDevice) (result : Result (Status × TxContext))
    → TxKept dev.context result
    → Keeps dev (result >>= λ r. ok (with_context dev r))
context-Keeps dev result kept status dev' run (live, c) =
    let ((s, context), got, rest) = >>=-eq-ok result _ run in
    subst Counted (ap (λ (r : Status × NetDevice). r.1) (ok-inj rest)) (
      live,
      frame-IsCounted live dev.context.txcs context.txcs dev.table.vqs dev.table.vqs
          (kept s context got) (λ v. refl) c,
    )

table-Keeps :
    (dev : NetDevice) (result : Result (Status × VqTable))
    → VqKept dev.table result
    → Keeps dev (result >>= λ r. ok (with_table dev r))
table-Keeps dev result kept status dev' run (live, c) =
    let ((s, table), got, rest) = >>=-eq-ok result _ run in
    subst Counted (ap (λ (r : Status × NetDevice). r.1) (ok-inj rest)) (
      live,
      frame-IsCounted live dev.context.txcs dev.context.txcs dev.table.vqs table.vqs
          (SamePointers-refl dev.context.txcs) (kept s table got) c,
    )

install-Keeps :
    (K : Kernel) (P : Params) (n klass : ℕ) (memory : Option ℕ) (dev : NetDevice)
    → ((i : ℕ) → memory ≡ some i → dev.context.txcs i ≡ none)
    → Keeps dev (install K P n memory klass dev.context >>= λ r. ok (with_context dev r))
install-Keeps K P n klass memory dev fresh status dev' run v =
    let ((s, context), got, rest) = >>=-eq-ok (install K P n memory klass dev.context) _ run in
    subst Counted (ap (λ (r : Status × NetDevice). r.1) (ok-inj rest))
      (install-Counted K P n klass memory dev.context context dev.table.vqs s fresh got v)

recompute-Keeps : (P : Params) (dev : NetDevice) → Keeps dev (recompute P dev)
unfolding recompute
recompute-Keeps P dev status dev' run (live, c) =
    let (context, first, rest) = >>=-eq-ok (recompute_rates P dev.context) _ run in
    let (table, second, last) = >>=-eq-ok (recalculate P dev.table) _ rest in
    subst Counted (ap (λ (r : Status × NetDevice). r.1) (ok-inj last)) (
      live,
      frame-IsCounted live dev.context.txcs context.txcs dev.table.vqs table.vqs
          (recompute_rates-SamePointers P dev.context context first)
          (recalculate-SameCounts P dev.table table second) c,
    )

remove-Keeps :
    (K : Kernel) (P : Params) (klass : ℕ) (dev : NetDevice)
    → Keeps dev (txc_find K klass dev.context >>= drop_class K P dev)
remove-Keeps K P klass dev status dev' run =
    let (found, searched, rest) = >>=-eq-ok (txc_find K klass dev.context) _ run in
    drop_class-Keeps K P dev found status dev' rest

-- The devices of an answer.
abbrev pub AllKeep : List NetDevice → Result (Status × List NetDevice) → Type 0
AllKeep devs result =
    (status : Status) (devs' : List NetDevice)
    → result ≡ ok (status, devs')
    → All Counted devs
    → All Counted devs'

same-AllKeep : (status : Status) (devs : List NetDevice) → AllKeep devs (ok (status, devs))
same-AllKeep status devs status' devs' run v =
    subst (All Counted) (ap (λ (r : Status × List NetDevice). r.1) (ok-inj run)) v

if-AllKeep :
    (devs : List NetDevice) (test : Bool) (x y : Result (Status × List NetDevice))
    → AllKeep devs x
    → AllKeep devs y
    → AllKeep devs (if test then x else y)
if-AllKeep devs true x y left right = left
if-AllKeep devs false x y left right = right

here-AllKeep :
    (dev : NetDevice) (rest : List NetDevice) (result : Result (Status × NetDevice))
    → Keeps dev result
    → AllKeep (dev ∷ rest) (result >>= λ (status, dev'). ok (status, dev' ∷ rest))
here-AllKeep dev rest result keep status devs' run (v, vs) =
    let ((s, dev'), got, last) = >>=-eq-ok result _ run in
    subst (All Counted) (ap (λ (r : Status × List NetDevice). r.1) (ok-inj last))
      (keep s dev' got v, vs)

later-AllKeep :
    (dev : NetDevice) (rest : List NetDevice) (result : Result (Status × List NetDevice))
    → AllKeep rest result
    → AllKeep (dev ∷ rest) (result >>= λ (status, devs). ok (status, dev ∷ devs))
later-AllKeep dev rest result keep status devs' run (v, vs) =
    let ((s, devs), got, last) = >>=-eq-ok result _ run in
    subst (All Counted) (ap (λ (r : Status × List NetDevice). r.1) (ok-inj last))
      (v, keep s devs got vs)

on_device-AllKeep :
    (other : Status) (name : ℕ) (call : NetDevice → Result (Status × NetDevice))
    (devs : List NetDevice)
    → All (λ dev. Keeps dev (call dev)) devs
    → AllKeep devs (on_device other name call devs)
unfolding on_device
on_device-AllKeep other name call [] keep = same-AllKeep other []
on_device-AllKeep other name call (dev ∷ rest) (keep, keeps) =
    if-AllKeep (dev ∷ rest) (dev.name == name) _ _
      (if-AllKeep (dev ∷ rest) dev.enabled _ _ (here-AllKeep dev rest (call dev) keep)
        (same-AllKeep other (dev ∷ rest)))
      (later-AllKeep dev rest (on_device other name call rest)
        (on_device-AllKeep other name call rest keeps))

every :
    (call : NetDevice → Result (Status × NetDevice))
    → ((dev : NetDevice) → Keeps dev (call dev))
    → (devs : List NetDevice) → All (λ dev. Keeps dev (call dev)) devs
every call keep [] = tt
every call keep (dev ∷ rest) = (keep dev, every call keep rest)

on_class-AllKeep :
    (line : Option (ℕ × ℕ)) (call : ℕ → NetDevice → Result (Status × NetDevice))
    (devs : List NetDevice)
    → ((klass : ℕ) (dev : NetDevice) → Keeps dev (call klass dev))
    → AllKeep devs (on_class line call devs)
unfolding on_class
on_class-AllKeep none call devs keep = same-AllKeep invalid devs
on_class-AllKeep (some (name, klass)) call devs keep =
    on_device-AllKeep invalid name (call klass) devs (every (call klass) (keep klass) devs)

on_value-AllKeep :
    (line : Option (ℕ × ℕ × ℤ)) (call : ℕ → ℤ → NetDevice → Result (Status × NetDevice))
    (devs : List NetDevice)
    → ((klass : ℕ) (value : ℤ) (dev : NetDevice) → Keeps dev (call klass value dev))
    → AllKeep devs (on_value line call devs)
unfolding on_value
on_value-AllKeep none call devs keep = same-AllKeep invalid devs
on_value-AllKeep (some (name, klass, value)) call devs keep =
    on_device-AllKeep invalid name (call klass value) devs
      (every (call klass value) (keep klass value) devs)

on_pair-AllKeep :
    (line : Option (ℕ × ℕ × ℕ)) (call : ℕ → ℕ → NetDevice → Result (Status × NetDevice))
    (devs : List NetDevice)
    → ((a b : ℕ) (dev : NetDevice) → Keeps dev (call a b dev))
    → AllKeep devs (on_pair line call devs)
unfolding on_pair
on_pair-AllKeep none call devs keep = same-AllKeep invalid devs
on_pair-AllKeep (some (name, a, b)) call devs keep =
    on_device-AllKeep done name (call a b) devs (every (call a b) (keep a b) devs)

pub handle-AllKeep :
    (K : Kernel) (P : Params) (request : Request) (devs : List NetDevice)
    → All (Fresh request) devs
    → AllKeep devs (handle K P request devs)
unfolding handle
handle-AllKeep K P (create_txc name klass n memory) devs fresh =
    on_device-AllKeep invalid name _ devs
      (All-map _ _ (λ dev f. install-Keeps K P n klass memory dev f) devs fresh)
handle-AllKeep K P (create_vq name klass n memory) devs fresh =
    on_device-AllKeep invalid name _ devs (
      All-map _ _ (λ dev f. table-Keeps dev _ (vq_install-VqKept K P n klass memory dev.table f))
        devs fresh)
handle-AllKeep K P (assoc_txc_vq line) devs fresh = on_pair-AllKeep line _ devs (assoc-Keeps K)
handle-AllKeep K P (weigh_txc line) devs fresh =
    on_value-AllKeep line _ devs
      (λ k w dev. context-Keeps dev _ (set_txc_weight-TxKept K P k w dev.context))
handle-AllKeep K P (limit_txc line) devs fresh =
    on_value-AllKeep line _ devs
      (λ k r dev. context-Keeps dev _ (set_txc_rate-TxKept K P k r dev.context))
handle-AllKeep K P (weigh_vq line) devs fresh =
    on_value-AllKeep line _ devs
      (λ k w dev. table-Keeps dev _ (set_vq_weight-VqKept K P k w dev.table))
handle-AllKeep K P (limit_vq line) devs fresh =
    on_value-AllKeep line _ devs
      (λ k r dev. table-Keeps dev _ (set_vq_rate-VqKept K P k r dev.table))
handle-AllKeep K P (remove_txc line) devs fresh = on_class-AllKeep line _ devs (remove-Keeps K P)
handle-AllKeep K P (remove_vq line) devs fresh =
    on_class-AllKeep line _ devs (λ k dev. table-Keeps dev _ (delete_vq-VqKept K k dev.table))
handle-AllKeep K P (recompute_dev none) devs fresh = same-AllKeep invalid devs
handle-AllKeep K P (recompute_dev (some name)) devs fresh =
    on_device-AllKeep invalid name (recompute P) devs (every (recompute P) (recompute-Keeps P) devs)
