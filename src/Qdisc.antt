-- ===== src/Qdisc.antt =====
-- qdisc.c: how the kernel hands packets to EyeQ. Its queueing discipline gives each packet that is
-- sent to `iso_tx`, and its receive handler each packet that is received to `iso_rx`.
pub mod Laws
pub mod Mq
use eyeq.Common.{
  ℕ, ◌+◌, Bool, true, false, not, ◌||◌, List, [], ◌∷◌, ◌++◌, Option, none, some, ◌==◌,
  if◌then◌else◌, Result, ok, ◌>>=◌,
}
use eyeq.Kernel.{Kernel, Skb}
use eyeq.Params.{Params}
use eyeq.Rl.{Verdict, success, drop, pass, error}
use eyeq.Rx.Handler.{RxLocks, Device, Received, iso_rx}
use eyeq.Tx.Path.{TxDevice, TxLocks, Sent, passed, iso_tx}

-- Whether there is a driver, and whether the transmit queue of a packet is stopped; and what becomes
-- of packets: those that the driver was given, and those that were freed since their queue was
-- stopped. Where there is no driver a packet is neither sent nor freed.
pub record Driver : Type 0 where
  pub attached : Bool
  pub stopped : Skb → Bool

pub record Wire : Type 0 where
  pub xmitted : List Skb
  pub freed : List Skb

pub nothing_out : Wire
nothing_out = record { xmitted = []; freed = [] }

-- `skb_xmit`
unfoldable pub skb_xmit : Driver → Skb → Wire → Wire
skb_xmit driver skb wire =
    if driver.attached
    then if driver.stopped skb
      then record wire { freed = wire.freed ++ (skb ∷ []) }
      else record wire { xmitted = wire.xmitted ++ (skb ∷ []) }
    else wire

-- The calls of `skb_xmit` that the root limiter makes.
unfoldable pub xmit_all : Driver → List Skb → Wire → Wire
unfolding skb_xmit
xmit_all driver [] wire = wire
xmit_all driver (skb ∷ rest) wire = xmit_all driver rest (skb_xmit driver skb wire)

-- NET_XMIT_SUCCESS and NET_XMIT_DROP
pub data XmitCode : Type 0 where
  xmit_success xmit_drop : XmitCode

pub record Enqueued : Type 0 where
  pub code : XmitCode
  pub wire : Wire
  pub device : TxDevice

-- The switch of `iso_enqueue`, on the verdict of `iso_tx`.
unfoldable pub by_verdict : Driver → Sent → Enqueued
unfolding xmit_all nothing_out
by_verdict driver sent =
    let wire = xmit_all driver sent.wire nothing_out in
    elim sent.verdict [
      | drop ↦ record {
        code = xmit_drop;
        wire = record wire { freed = wire.freed ++ (sent.skb ∷ []) };
        device = sent.device;
      }
      | pass ↦ record {
        code = xmit_success;
        wire = skb_xmit driver sent.skb wire;
        device = sent.device;
      }
      | _ ↦ record { code = xmit_success; wire = wire; device = sent.device }
    ]

-- `iso_enqueue`
unfoldable pub iso_enqueue :
    Kernel → Params → ℕ → TxLocks → Bool → Driver → ℕ → Skb → TxDevice → Result Enqueued
unfolding by_verdict
iso_enqueue K P n locks exiting driver cpu skb device =
    if P.iso_global_enabled == 0
    then ok (by_verdict driver (passed skb device))
    else iso_tx K P n locks exiting cpu skb device >>= λ sent. ok (by_verdict driver sent)

-- `iso_dequeue`: EyeQ's limiters send on their own.
pub iso_dequeue : Option Skb
iso_dequeue = none

-- RX_HANDLER_PASS and RX_HANDLER_CONSUMED
pub data RxResult : Type 0 where
  handler_pass handler_consumed : RxResult

pub record Handled : Type 0 where
  pub result : RxResult
  pub skb : Skb
  pub freed : List Skb
  pub feedback : Option Skb
  pub device : Device

-- A packet that the stack gets unseen.
abbrev pub unseen : Skb → Device → Handled
unseen skb device = record {
  result = handler_pass;
  skb = skb;
  freed = [];
  feedback = none;
  device = device;
}

-- The switch of `iso_rx_handler`.
unfoldable pub hand_on : Received → Handled
hand_on r = elim r.verdict [
  | drop ↦ record {
    result = handler_consumed;
    skb = r.skb;
    freed = r.skb ∷ [];
    feedback = r.feedback;
    device = r.device;
  }
  | _ ↦ record {
    result = handler_pass;
    skb = r.skb;
    freed = [];
    feedback = r.feedback;
    device = r.device;
  }
]

-- `iso_rx_handler`; `loopback` is `skb->pkt_type == PACKET_LOOPBACK`, `enabled` is `iso_enabled(in)`.
unfoldable pub iso_rx_handler :
    Kernel → Params → ℕ → RxLocks → Bool → Bool → ℕ → Skb → Device → Result Handled
unfolding hand_on
iso_rx_handler K P n locks loopback enabled cpu skb device =
    if loopback
    then ok (unseen skb device)
    else if not enabled || (P.iso_global_enabled == 0)
    then ok (unseen skb device)
    else iso_rx K P n locks cpu skb device >>= λ r. ok (hand_on r)
