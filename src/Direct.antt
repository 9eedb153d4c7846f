-- ===== src/Direct.antt =====
-- direct.c: EyeQ without a queueing discipline. It takes the place of one device's transmit function,
-- and keeps that to send with. The kernel calls it under the lock of the packet's transmit queue.
pub mod Laws
pub mod Hooks
use eyeq.Common.{
  ℕ, Bool, true, false, not, List, [], ◌∷◌, ◌++◌, Option, none, some, ◌==◌, if◌then◌else◌, set_cpu,
  Result, fault, ok, ◌>>=◌,
}
use eyeq.Kernel.{Kernel, Skb}
use eyeq.Params.{Params}
use eyeq.Rl.{drop, pass}
use eyeq.Rx.Handler.{RxLocks, Device, iso_rx}
use eyeq.Tx.Path.{TxDevice, TxLocks, Sent, iso_tx}
use eyeq.Qdisc.Mq.{Owner, eyeq_handler}
use eyeq.Qdisc.{Driver, Wire, nothing_out, Handled, unseen, hand_on}

-- What the packets find below EyeQ: who holds the lock of each transmit queue
-- (`txq->xmit_lock_owner`), and what the driver makes of the packets.
pub record Line : Type 0 where
  pub owner : ℕ → Option ℕ
  pub wire : Wire

abbrev pub is_owner : ℕ → Option ℕ → Bool
is_owner cpu none = false
is_owner cpu (some holder) = holder == cpu

-- `HARD_TX_LOCK`. Nothing else runs in between, so a lock that is held is waited for in vain, which is
-- a fault.
unfoldable pub hard_tx_lock : ℕ → ℕ → Line → Result Line
hard_tx_lock q cpu line = elim (line.owner q) [
  | none ↦ ok (record line { owner = set_cpu line.owner q (some cpu) })
  | some holder ↦ fault
]

-- `HARD_TX_UNLOCK`
unfoldable pub hard_tx_unlock : ℕ → Line → Line
hard_tx_unlock q line = record line { owner = set_cpu line.owner q none }

-- The driver's own function, which is to be called under the lock of the packet's queue.
unfoldable pub old_ndo_start_xmit : ℕ → ℕ → Skb → Line → Result Line
old_ndo_start_xmit q cpu skb line =
    if is_owner cpu (line.owner q)
    then (let wire = line.wire in
        ok (record line { wire = record wire { xmitted = wire.xmitted ++ (skb ∷ []) } }))
    else fault

-- The part of `skb_xmit` under the lock.
unfoldable pub xmit_held : Driver → ℕ → ℕ → Skb → Line → Result Line
unfolding old_ndo_start_xmit
xmit_held driver q cpu skb line =
    let wire = line.wire in
    if driver.stopped skb
    then ok (record line { wire = record wire { freed = wire.freed ++ (skb ∷ []) } })
    else old_ndo_start_xmit q cpu skb line

-- A packet has a transmit queue: `skb_get_queue_mapping`.
module _ (queue_of : Skb → ℕ) where
  -- `skb_xmit`; `driver.attached` is `old_ndo_start_xmit != NULL`.
  unfoldable pub xmit_skb : Driver → ℕ → Skb → Line → Result Line
  unfolding xmit_held hard_tx_lock hard_tx_unlock
  xmit_skb driver cpu skb line =
      let q = queue_of skb in
      if driver.attached
      then if is_owner cpu (line.owner q)
        then xmit_held driver q cpu skb line
        else (hard_tx_lock q cpu line >>= λ held.
            xmit_held driver q cpu skb held >>= λ sent. ok (hard_tx_unlock q sent))
      else ok line

  -- The calls of `skb_xmit` that the root limiter makes.
  unfoldable pub xmit_each : Driver → ℕ → List Skb → Line → Result Line
  unfolding xmit_skb
  xmit_each driver cpu [] line = ok line
  xmit_each driver cpu (skb ∷ rest) line =
      xmit_skb driver cpu skb line >>= xmit_each driver cpu rest

-- NETDEV_TX_OK and NETDEV_TX_BUSY
pub data NetdevTx : Type 0 where
  tx_ok tx_busy : NetdevTx

-- The packet is the caller's again where the code is NETDEV_TX_BUSY.
pub record Transmitted : Type 0 where
  pub code : NetdevTx
  pub skb : Skb
  pub line : Line
  pub device : TxDevice

module _ (queue_of : Skb → ℕ) where
  -- The switch of `iso_ndo_start_xmit`, on the verdict of `iso_tx`.
  unfoldable pub for_verdict : Driver → ℕ → Sent → Line → Result (NetdevTx × Line)
  unfolding xmit_skb
  for_verdict driver cpu sent line = elim sent.verdict [
    | drop ↦ ok (tx_busy, line)
    | pass ↦ (xmit_skb queue_of driver cpu sent.skb line >>= λ line'. ok (tx_ok, line'))
    | _ ↦ ok (tx_ok, line)
  ]

  -- `iso_ndo_start_xmit`
  unfoldable pub iso_ndo_start_xmit :
      Kernel → Params → ℕ → TxLocks → Bool → Driver → ℕ → Skb → TxDevice → Line → Result Transmitted
  unfolding for_verdict xmit_each hard_tx_lock hard_tx_unlock
  iso_ndo_start_xmit K P n locks exiting driver cpu skb device line = do
    let q = queue_of skb
    sent ← iso_tx K P n locks exiting cpu skb device
    each ← xmit_each queue_of driver cpu sent.wire (hard_tx_unlock q line)
    (code, last) ← for_verdict driver cpu sent each
    line' ← hard_tx_lock q cpu last
    ok (record { code = code; skb = sent.skb; line = line'; device = sent.device })

-- `iso_rx_handler`, of this build: nothing is switched off.
unfoldable pub rx_handler : Kernel → Params → ℕ → RxLocks → Bool → ℕ → Skb → Device → Result Handled
unfolding hand_on
rx_handler K P n locks loopback cpu skb device =
    if loopback
    then ok (unseen skb device)
    else (iso_rx K P n locks cpu skb device >>= λ r. ok (hand_on r))

-- What a device's `ndo_start_xmit` points to: nothing, the driver's own function, or EyeQ's.
pub data Start : Type 0 where
  no_xmit driver_xmit eyeq_xmit : Start

-- `iso_netdev` and its operations, if it has them, with what EyeQ keeps (`old_ndo_start_xmit` and
-- `txctx->xmit`), and the device's receive handler.
pub record Hook : Type 0 where
  pub netdev : Option (Option Start)
  pub old : Start
  pub xmit : Start
  pub handler : Option Owner

-- `iso_tx_hook_init`: whether it succeeds.
unfoldable pub tx_hook_init : Hook → Bool × Hook
tx_hook_init hook = elim hook.netdev [
  | none ↦ (false, hook)
  | some none ↦ (false, hook)
  | some (some start) ↦
      (true, record hook { netdev = some (some eyeq_xmit); old = start; xmit = start })
]

-- `iso_tx_hook_exit`
unfoldable pub tx_hook_exit : Hook → Result Hook
tx_hook_exit hook = elim hook.netdev [
  | none ↦ fault
  | some none ↦ fault
  | some (some start) ↦ ok (record hook { netdev = some (some hook.xmit) })
]

-- `iso_rx_hook_init`: whether it succeeds. `netdev_rx_handler_register` refuses a device that has a
-- handler.
unfoldable pub rx_hook_begin : Hook → Bool × Hook
rx_hook_begin hook = elim hook.netdev [
  | none ↦ (false, hook)
  | some ops ↦ elim hook.handler [
    | none ↦ (true, record hook { handler = some eyeq_handler })
    | some owner ↦ (false, hook)
  ]
]

-- `iso_rx_hook_exit`: whatever handler the device has is removed.
unfoldable pub rx_hook_end : Hook → Result Hook
rx_hook_end hook = elim hook.netdev [
  | none ↦ fault
  | some ops ↦ ok (record hook { handler = none })
]
