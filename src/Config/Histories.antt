-- ===== src/Config/Histories.antt =====
-- What holds in every system that requests lead to.
use mathlib.Core.Path.{subst}
use eyeq.Common.{
  ℕ, ◌≤◌, ◌≡◌, refl, ap, true, none, some, arith, Bool-cases, Option-cases, ==_iff, inl, inr, ltb,
  All, All-map, ok, >>=-eq-ok, ok-inj,
}
use eyeq.Common.Store.{at, Holds}
use eyeq.Kernel.{Kernel}
use eyeq.Params.{Params}
use eyeq.Tx.{TxClass}
use eyeq.Tx.Classes.{invalid}
use eyeq.Vq.{Vq}
use eyeq.Vq.Table.{VqTable, vq_find, delete_vq, delete_found_vq}
use eyeq.Config.{NetDevice, Request, handle, System, Reply, submit}
use eyeq.Config.Frames.{refers, refcnt_of}
use eyeq.Config.Counts.{refers-le}
use eyeq.Config.References.{Counted}
use eyeq.Config.Requests.{Fresh, handle-AllKeep}

-- Requests are answered, one after the other; what a request is given to store a class or a queue
-- is not in use on any device.
pub data Reach (K : Kernel) (P : Params) (s : System) : System → Type 0 where
  here : Reach K P s s
  next :
      {t u : System} (request : Request) (reply : Reply)
      → Reach K P s t
      → All (Fresh request) t.devices
      → submit K P request t ≡ ok (reply, u)
      → Reach K P s u

submit-Counted :
    (K : Kernel) (P : Params) (request : Request) (reply : Reply) (s u : System)
    → All (Fresh request) s.devices
    → submit K P request s ≡ ok (reply, u)
    → All Counted s.devices
    → All Counted u.devices
unfolding submit
submit-Counted K P request reply s u fresh run v = elim (Bool-cases s.free) [
  | inl free ↦
      let ((status, devices), handled, rest) =
        >>=-eq-ok (handle K P request s.devices) _ (rw free at run) in
      subst (λ (x : System). All Counted x.devices) (ap (λ (r : Reply × System). r.1) (ok-inj rest))
        (handle-AllKeep K P request s.devices fresh status devices handled v)
  | inr held ↦
      subst (λ (x : System). All Counted x.devices)
        (ap (λ (r : Reply × System). r.1) (ok-inj (rw held at run))) v
]

Reach-Counted :
    {K : Kernel} {P : Params} {s u : System}
    → All Counted s.devices
    → Reach K P s u
    → All Counted u.devices
Reach-Counted v here = v
Reach-Counted {K = K} {P = P} {u = u} v (next {t = t} request reply reached fresh run) =
    submit-Counted K P request reply t u fresh run (Reach-Counted v reached)

-- No class points to a queue that was freed, and a queue that a class points to is not deleted.
abbrev pub IsReferenced : Kernel → NetDevice → Type 0
IsReferenced K dev =
    (i v : ℕ) (txc : TxClass)
    → dev.context.txcs i ≡ some txc
    → txc.vq ≡ some v
    → Holds (λ vq. 1 ≤ vq.refcnt) dev.table.vqs v
      × ((klass : ℕ)
          → vq_find K klass dev.table ≡ ok (some v)
          → delete_vq K klass dev.table ≡ ok (invalid, dev.table))

keeps_queue :
    (K : Kernel) (klass v : ℕ) (table : VqTable) (vq : Vq)
    → table.vqs v ≡ some vq
    → 1 ≤ vq.refcnt
    → vq_find K klass table ≡ ok (some v)
    → delete_vq K klass table ≡ ok (invalid, table)
unfolding delete_vq delete_found_vq
keeps_queue K klass v table vq held counted found =
    let some_left : ltb 0 vq.refcnt ≡ true = ground arith in rw (found, held, some_left) refl

Counted-IsReferenced : (K : Kernel) (dev : NetDevice) → Counted dev → IsReferenced K dev
Counted-IsReferenced K dev (live, c) i v txc held points =
    let one_left : 1 ≤ at refcnt_of dev.table.vqs v = omega (
      arith,
      refers-le live dev.context.txcs dev.table.vqs i txc c held v,
      ap (refers v) points,
      itself v,
    ) in
    elim (Option-cases (dev.table.vqs v)) [
      | inl gone ↦ absurd (freed gone one_left)
      | inr (vq, there) ↦
          let counted : 1 ≤ vq.refcnt = rw there at one_left in
          (
            (vq, there, counted),
            λ klass found. keeps_queue K klass v dev.table vq there counted found,
          )
    ]
  where
    itself : (v : ℕ) → refers v (some v) ≡ 1
    itself v = rw ((==_iff v v).1 refl) refl

    freed : dev.table.vqs v ≡ none → 1 ≤ at refcnt_of dev.table.vqs v → ⊥
    freed gone one_left = let zero_left : 1 ≤ 0 = rw gone at one_left in omega arith

-- In every system that requests lead to, from one where the counts of the queues are right (such as
-- one without classes and queues): a class never points to a queue that was freed, the queue that
-- it points to has a reference, and a request to delete such a queue is refused and changes nothing.
-- (Devices may be missing or disabled, lines malformed, memory short.)
pub Reach-IsReferenced :
    {K : Kernel} {P : Params} {s u : System}
    → All Counted s.devices
    → Reach K P s u
    → All (IsReferenced K) u.devices
Reach-IsReferenced {K = K} {u = u} v reached =
    All-map Counted (IsReferenced K) (Counted-IsReferenced K) u.devices (Reach-Counted v reached)
