-- ===== src/Config.antt =====
-- params.c: the requests that configure the classes and virtual queues of the devices. They are
-- written to files under /sys, run one at a time under a semaphore, and find their device by name.
pub mod Frames
pub mod Counts
pub mod Calls
pub mod Queues
pub mod References
pub mod Requests
pub mod Histories
use eyeq.Common.{
  ℕ, ◌+◌, ◌-◌, Bool, true, false, List, [], ◌∷◌, Option, none, some, ◌==◌, if◌then◌else◌, Result,
  ok, ◌>>=◌,
}
use eyeq.Common.Int.{ℤ}
use eyeq.Common.Store.{Store, read, write, update_at}
use eyeq.Kernel.{Kernel}
use eyeq.Params.{Params}
use eyeq.Tx.{TxClass, TxContext, recompute_rates}
use eyeq.Tx.Classes.{Status, done, invalid, txc_find, install, set_txc_weight, set_txc_rate, unlink}
use eyeq.Vq.{Vq}
use eyeq.Vq.Table.{VqTable, vq_find, vq_install, recalculate, delete_vq, set_vq_weight, set_vq_rate}

-- A network device: its name, whether it has EyeQ's queueing discipline (`iso_enabled`), its classes
-- and its virtual queues.
pub record NetDevice : Type 0 where
  pub name : ℕ
  pub enabled : Bool
  pub context : TxContext
  pub table : VqTable

-- The lines that the handlers read, parsed; `none` is a line that does not parse. The class of
-- `create_txc` and `create_vq` is what the buffer holds: their `sscanf` is not tested. They have the
-- number of the next reading of the time, and the memory that the kernel gives, if any.
pub data Request : Type 0 where
  create_txc : ℕ → ℕ → ℕ → Option ℕ → Request
  create_vq : ℕ → ℕ → ℕ → Option ℕ → Request
  assoc_txc_vq : Option (ℕ × ℕ × ℕ) → Request
  weigh_txc : Option (ℕ × ℕ × ℤ) → Request
  limit_txc : Option (ℕ × ℕ × ℤ) → Request
  weigh_vq : Option (ℕ × ℕ × ℤ) → Request
  limit_vq : Option (ℕ × ℕ × ℤ) → Request
  remove_txc : Option (ℕ × ℕ) → Request
  remove_vq : Option (ℕ × ℕ) → Request
  recompute_dev : Option ℕ → Request

-- `atomic_dec` of the count of the queue that a class points to, if any.
unfoldable pub release : Option ℕ → Store Vq → Result (Store Vq)
release none vqs = ok vqs
release (some v) vqs = update_at (λ vq. record vq { refcnt = vq.refcnt - 1 }) v vqs

-- The assignments of `iso_sys_assoc_txc_vq`, to the class at `i` and the queue at `v`.
unfoldable pub associate : ℕ → ℕ → NetDevice → Result (Status × NetDevice)
unfolding release
associate i v dev = do
  txc ← read dev.context.txcs i
  released ← release txc.vq dev.table.vqs
  vqs ← update_at (λ vq. record vq { refcnt = vq.refcnt + 1 }) v released
  let context = dev.context
  let table = dev.table
  ok (
    done,
    record dev {
      context = record context { txcs = write context.txcs i (record txc { vq = some v }) };
      table = record table { vqs = vqs };
    },
  )

unfoldable pub associate_found : ℕ → NetDevice → Option ℕ → Result (Status × NetDevice)
unfolding associate
associate_found i dev none = ok (invalid, dev)
associate_found i dev (some v) = associate i v dev

unfoldable pub associate_class : Kernel → ℕ → NetDevice → Option ℕ → Result (Status × NetDevice)
unfolding associate_found
associate_class K vqclass dev none = ok (invalid, dev)
associate_class K vqclass dev (some i) = vq_find K vqclass dev.table >>= associate_found i dev

-- `iso_sys_assoc_txc_vq` on its device.
unfoldable pub assoc : Kernel → ℕ → ℕ → NetDevice → Result (Status × NetDevice)
unfolding associate_class
assoc K txclass vqclass dev = txc_find K txclass dev.context >>= associate_class K vqclass dev

-- `iso_sys_delete_txc` past its search: `iso_txc_free` gives up the reference to the queue.
unfoldable pub drop_class : Kernel → Params → NetDevice → Option ℕ → Result (Status × NetDevice)
unfolding release
drop_class K P dev none = ok (invalid, dev)
drop_class K P dev (some i) = do
  txc ← read dev.context.txcs i
  context ← unlink K P i dev.context
  vqs ← release txc.vq dev.table.vqs
  let table = dev.table
  ok (done, record dev { context = context; table = record table { vqs = vqs } })

abbrev pub with_context : NetDevice → Status × TxContext → Status × NetDevice
with_context dev (status, context) = (status, record dev { context = context })

abbrev pub with_table : NetDevice → Status × VqTable → Status × NetDevice
with_table dev (status, table) = (status, record dev { table = table })

-- `iso_search_netdev`, and the call on the device; a device that is missing or not enabled leaves
-- all as it is and gives the status `other`.
unfoldable pub on_device :
    Status
    → ℕ
    → (NetDevice → Result (Status × NetDevice))
    → List NetDevice
    → Result (Status × List NetDevice)
on_device other name call [] = ok (other, [])
on_device other name call (dev ∷ rest) =
    let later = on_device other name call rest >>= λ (status, devs). ok (status, dev ∷ devs) in
    let here = call dev >>= λ (status, dev'). ok (status, dev' ∷ rest) in
    if dev.name == name then if dev.enabled then here else ok (other, dev ∷ rest) else later

-- A handler between `down_interruptible` and `up`, on a device.
unfoldable pub on_class :
    Option (ℕ × ℕ)
    → (ℕ → NetDevice → Result (Status × NetDevice))
    → List NetDevice
    → Result (Status × List NetDevice)
unfolding on_device
on_class none call devs = ok (invalid, devs)
on_class (some (name, klass)) call devs = on_device invalid name (call klass) devs

unfoldable pub on_value :
    Option (ℕ × ℕ × ℤ)
    → (ℕ → ℤ → NetDevice → Result (Status × NetDevice))
    → List NetDevice
    → Result (Status × List NetDevice)
unfolding on_device
on_value none call devs = ok (invalid, devs)
on_value (some (name, klass, value)) call devs = on_device invalid name (call klass value) devs

-- `iso_sys_assoc_txc_vq` returns 0 where the device is missing or not enabled.
unfoldable pub on_pair :
    Option (ℕ × ℕ × ℕ)
    → (ℕ → ℕ → NetDevice → Result (Status × NetDevice))
    → List NetDevice
    → Result (Status × List NetDevice)
unfolding on_device
on_pair none call devs = ok (invalid, devs)
on_pair (some (name, txclass, vqclass)) call devs = on_device done name (call txclass vqclass) devs

unfoldable pub recompute : Params → NetDevice → Result (Status × NetDevice)
recompute P dev = do
  context ← recompute_rates P dev.context
  table ← recalculate P dev.table
  ok (done, record dev { context = context; table = table })

-- What a request's handler does while it holds the semaphore.
unfoldable pub handle :
    Kernel → Params → Request → List NetDevice → Result (Status × List NetDevice)
unfolding on_class on_value on_pair assoc drop_class recompute
handle K P (create_txc name klass n memory) devs =
    on_device invalid name
      (λ dev. install K P n memory klass dev.context >>= λ r. ok (with_context dev r)) devs
handle K P (create_vq name klass n memory) devs =
    on_device invalid name
      (λ dev. vq_install K P n memory klass dev.table >>= λ r. ok (with_table dev r)) devs
handle K P (assoc_txc_vq line) devs = on_pair line (assoc K) devs
handle K P (weigh_txc line) devs =
    on_value line
      (λ klass w dev. set_txc_weight K P klass w dev.context >>= λ r. ok (with_context dev r)) devs
handle K P (limit_txc line) devs =
    on_value line
      (λ klass r dev. set_txc_rate K P klass r dev.context >>= λ s. ok (with_context dev s)) devs
handle K P (weigh_vq line) devs =
    on_value line
      (λ klass w dev. set_vq_weight K P klass w dev.table >>= λ r. ok (with_table dev r)) devs
handle K P (limit_vq line) devs =
    on_value line (λ klass r dev. set_vq_rate K P klass r dev.table >>= λ s. ok (with_table dev s))
      devs
handle K P (remove_txc line) devs =
    on_class line (λ klass dev. txc_find K klass dev.context >>= drop_class K P dev) devs
handle K P (remove_vq line) devs =
    on_class line (λ klass dev. delete_vq K klass dev.table >>= λ r. ok (with_table dev r)) devs
handle K P (recompute_dev none) devs = ok (invalid, devs)
handle K P (recompute_dev (some name)) devs = on_device invalid name (recompute P) devs

-- Whether the handler reaches its `up`: `iso_sys_recompute_dev` jumps past it.
unfoldable pub releases : Request → Bool
releases (recompute_dev none) = false
releases _ = true

-- The devices, and whether the semaphore is free.
pub record System : Type 0 where
  pub free : Bool
  pub devices : List NetDevice

-- A handler's answer, or that it waits for the semaphore.
pub data Reply : Type 0 where
  replied : Status → Reply
  waits : Reply

-- A write to one of the files.
unfoldable pub submit : Kernel → Params → Request → System → Result (Reply × System)
unfolding handle releases
submit K P request system =
    if system.free
    then (handle K P request system.devices >>= λ (status, devices).
        ok (replied status, record { free = releases request; devices = devices }))
    else ok (waits, system)
