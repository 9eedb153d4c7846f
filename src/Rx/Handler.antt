-- ===== src/Rx/Handler.antt =====
-- rx.c: `iso_rx`, the handler of a packet that is received.
use eyeq.Common.{ℕ, ◌+◌, Bool, true, not, Option, none, some, ◌==◌, Result, fault, ok, ◌>>=◌}
use eyeq.Common.Store.{read, write}
use eyeq.Class.{rx_classify}
use eyeq.Kernel.{Kernel, Skb}
use eyeq.Packet.{is_feedback_marked, clear_ecn}
use eyeq.Params.{Params}
use eyeq.Rl.{Verdict, success}
use eyeq.Rx.{RxContext, stats_update, rcp_update}
use eyeq.Rx.Feedback.{apply_feedback, verdict_of, generate_due}
use eyeq.Tx.Classes.{txc_find}
use eyeq.Tx.Path.{TxDevice}
use eyeq.Tx.States.{Ptr, null, entry, list_head, Pool, state_get}
use eyeq.Vq.Drain.{vq_enqueue}
use eyeq.Vq.Table.{VqTable, vq_find}

-- Both directions of a device.
pub record Device : Type 0 where
  pub context : RxContext
  pub vqs : VqTable
  pub tx : TxDevice

-- The outcomes of the trylocks, in the order of the code: of `iso_rx_stats_update`,
-- `iso_rx_rcp_update`, `iso_vq_enqueue`, `iso_state_get` and of the rate controller's; and whether
-- there is memory for a feedback packet.
pub record RxLocks : Type 0 where
  pub stats : Bool
  pub rcp : Bool
  pub vq : Bool
  pub state : Bool
  pub rc : Bool
  pub allocated : Bool

-- The verdict, the packet as it is handed on, and the feedback packet that was sent.
pub record Received : Type 0 where
  pub verdict : Verdict
  pub skb : Skb
  pub feedback : Option Skb
  pub device : Device

-- A packet that is accepted before any feedback is due.
abbrev pub accepted : Skb → Device → Received
accepted skb device = record { verdict = success; skb = skb; feedback = none; device = device }

-- The feedback that is due for the queue at `v`.
unfoldable pub receive_generate :
    Kernel → Params → ℕ → RxLocks → ℕ → ℕ → Verdict → Skb → Device → Result Received
receive_generate K P n locks cpu v verdict skb device = read device.vqs.vqs v >>= λ vq.
    let (feedback, vq') =
      generate_due K P (K.ktime n) (K.ktime (n + 1)) locks.allocated verdict cpu skb vq in
    let table = device.vqs in
    ok (record {
      verdict = verdict;
      skb = skb;
      feedback = feedback;
      device = record device { vqs = record table { vqs = write table.vqs v vq' } };
    })

-- The device with a class's pool.
abbrev pub with_pool : ℕ → Pool → Device → Device
with_pool c pool device =
    let tx = device.tx in record device { tx = record tx { pools = write tx.pools c pool } }

-- With the result of `iso_state_get`: without a state no feedback is applied. A pointer that is no
-- state is read all the same.
unfoldable pub receive_state :
    Kernel → Params → ℕ → RxLocks → ℕ → ℕ → ℕ → Skb → Device → Ptr × Pool → Result Received
unfolding receive_generate
receive_state K P n locks cpu v c skb device (null, pool) =
    receive_generate K P (n + 1) locks cpu v success skb (with_pool c pool device)
receive_state K P n locks cpu v c skb device (list_head, pool) = fault
receive_state K P n locks cpu v c skb device (entry i, pool) =
    apply_feedback K P (K.ktime n) locks.rc skb i pool >>= λ pool'.
    receive_generate K P (n + 1) locks cpu v (verdict_of P skb) (clear_ecn K skb)
      (with_pool c pool' device)

-- With the result of `iso_txc_find`. ISO_CREATE_RL is 1.
unfoldable pub receive_class :
    Kernel → Params → ℕ → RxLocks → ℕ → ℕ → Skb → Device → Option ℕ → Result Received
unfolding receive_state
receive_class K P n locks cpu v skb device none = ok (accepted skb device)
receive_class K P n locks cpu v skb device (some c) = do
  pool ← read device.tx.pools c
  found ← state_get K P n skb true (not (is_feedback_marked P skb == 0)) locks.state pool
  receive_state K P (n + 3) locks cpu v c skb device found

-- With the result of `iso_vq_find`.
unfoldable pub receive_vq :
    Kernel → Params → ℕ → RxLocks → ℕ → Skb → Device → Option ℕ → Result Received
unfolding receive_class
receive_vq K P n locks cpu skb device none = ok (accepted skb device)
receive_vq K P n locks cpu skb device (some v) = do
  vq ← read device.vqs.vqs v
  vq' ← vq_enqueue K P n locks.vq cpu skb device.context.rcp_rate vq
  found ← txc_find K (rx_classify skb) device.tx.context
  let table = device.vqs
  receive_class K P (n + 2) locks cpu v skb
      (record device { vqs = record table { vqs = write table.vqs v vq' } }) found

-- `iso_rx` on a cpu; `n` is the number of its first reading of the time.
unfoldable pub iso_rx : Kernel → Params → ℕ → RxLocks → ℕ → Skb → Device → Result Received
unfolding receive_vq
iso_rx K P n locks cpu skb device = do
  counted ← stats_update K P (K.ktime n) locks.stats cpu skb device.context
  context ← rcp_update K P (K.ktime (n + 1)) locks.rcp counted
  found ← vq_find K (rx_classify skb) device.vqs
  receive_vq K P (n + 2) locks cpu skb (record device { context = context }) found
