-- ===== src/Examples/Requests.antt =====
-- Requests to one device with a class and a virtual queue.
use eyeq.Common.{
  ◌≡◌, refl, true, [], ◌∷◌, none, some, ◌==◌, if◌then◌else◌, Bool-cases, inl, inr, All, Result,
  fault, ok,
}
use eyeq.Common.Store.{update_at}
use eyeq.Params.{defaults}
use eyeq.Tx.{TxContext}
use eyeq.Tx.Classes.{done, txc_find}
use eyeq.Vq.{vq_init}
use eyeq.Vq.Table.{VqTable, vq_find, find_vq_in}
use eyeq.Config.{NetDevice, assoc_txc_vq, System, Reply, replied, waits, submit}
use eyeq.Config.References.{Counted}
use eyeq.Config.Histories.{Reach, IsReferenced, Reach-IsReferenced}
use eyeq.Examples.{kernel}
use eyeq.Examples.Classes.{light, device}

-- The queue of class 9 stands at address 5.
abbrev table : VqTable
table = record {
  vq_list = 5 ∷ [];
  vq_bucket = λ b. if b == 9 then 5 ∷ [] else [];
  vqs = λ v. if v == 5 then some (vq_init kernel defaults 0 9) else none;
}

-- Class 10 at address 1.
abbrev one_class : TxContext
one_class = record device {
  iso_tx_bucket = λ b. if b == 10 then 1 ∷ [] else [];
  txc_list = 1 ∷ [];
  txcs = λ i. if i == 1 then some light else none;
  txc_total_weight = 1;
}

abbrev eth0 : NetDevice
eth0 = record { name = 0; enabled = true; context = one_class; table = table }

abbrev before : System
before = record { free = true; devices = eth0 ∷ [] }

eth0-Counted : Counted eth0
unfolding vq_init
eth0-Counted = (
  1 ∷ [],
  record {
    distinct = (refl, tt);
    alive = λ i. elim (Bool-cases (i == 1)) [ inl here ↦ rw here refl | inr there ↦ rw there refl ];
    counts =
        λ v. elim (Bool-cases (v == 5)) [ inl here ↦ rw here refl | inr there ↦ rw there refl ];
  },
)

abbrev outcome : Result (Reply × System) → Reply × System
outcome fault = (waits, before)
outcome (ok r) = r

-- Class 10 is associated with the queue of class 9.
after : Reply × System
unfolding submit txc_find vq_find find_vq_in vq_init update_at
after = outcome (submit kernel defaults (assoc_txc_vq (some (0, 10, 9))) before)

after_lem : submit kernel defaults (assoc_txc_vq (some (0, 10, 9))) before ≡ ok (after.0, after.1)
unfolding after
after_lem = refl

after_done : after.0 ≡ replied done
unfolding after
after_done = refl

Reach-IsReferenced_example : All (IsReferenced kernel) after.1.devices
Reach-IsReferenced_example =
    Reach-IsReferenced {K = kernel} {P = defaults} {s = before} {u = after.1} (eth0-Counted, tt)
      (Reach.next (assoc_txc_vq (some (0, 10, 9))) after.0 Reach.here (tt, tt) after_lem)
