-- ===== src/Direct/Laws.antt =====
-- Without a queueing discipline packets fare as they do with it.
use eyeq.Common.{
  ℕ, ◌<◌, ◌≡◌, refl, ap, ◌∙◌, ◌⊎◌, Bool, true, false, List, [], ◌∷◌, ◌++◌, Option, none, some,
  arith, ◌==◌, ==_iff, if◌then◌else◌, Bool-cases, inl, inr, set_cpu, Result, ok, ◌>>=◌,
}
use eyeq.Kernel.{Kernel, Skb}
use eyeq.Params.{Params}
use eyeq.Rl.{Verdict, success, drop, pass, error}
use eyeq.Tx.Path.{TxDevice, TxLocks, Sent}
use eyeq.Tx.Sound.{IsSound, iso_tx-IsSound}
use eyeq.Qdisc.{
  Driver, Wire, nothing_out, Enqueued, xmit_drop, xmit_success, skb_xmit, xmit_all, by_verdict,
  iso_enqueue,
}
use eyeq.Direct.{
  Line, hard_tx_lock, hard_tx_unlock, old_ndo_start_xmit, xmit_held, xmit_skb, xmit_each, NetdevTx,
  tx_ok, tx_busy, Transmitted, for_verdict, iso_ndo_start_xmit,
}

-- No lock is held.
abbrev IsFree : Line → Type 0
IsFree line = (i : ℕ) → line.owner i ≡ none

-- A call returns with no lock held, and the packets are where they are with the discipline.
abbrev Sends : Wire → Result Line → Type 0
Sends wire r = (line : Line) × (r ≡ ok line) × (line.wire ≡ wire) × IsFree line

-- A lock that is taken and given back.
given_back :
    (owner : ℕ → Option ℕ) (q cpu i : ℕ)
    → owner i ≡ none
    → set_cpu (set_cpu owner q (some cpu)) q none i ≡ none
given_back owner q cpu i e = elim (Bool-cases (i == q)) [
  | inl here ↦ rw here refl
  | inr other ↦ rw other e
]

-- A lock that is free is taken.
locks :
    (q cpu : ℕ) (line : Line)
    → line.owner q ≡ none
    → hard_tx_lock q cpu line ≡ ok (record line { owner = set_cpu line.owner q (some cpu) })
unfolding hard_tx_lock
locks q cpu line e = rw (hard_tx_lock, e) refl

module _ (queue_of : Skb → ℕ) (driver : Driver) (cpu : ℕ) where
  xmit_skb-Sends :
      (skb : Skb) (line : Line)
      → IsFree line
      → Sends (skb_xmit driver skb line.wire) (xmit_skb queue_of driver cpu skb line)
  unfolding xmit_skb xmit_held hard_tx_unlock old_ndo_start_xmit skb_xmit
  xmit_skb-Sends skb line none_held =
      let q = queue_of skb in
      let wire = line.wire in
      let mine : (q == q) ≡ true = (==_iff q q).1 refl in
      let own : (cpu == cpu) ≡ true = (==_iff cpu cpu).1 refl in
      let taken = locks q cpu line (none_held q) in
      let still = λ (i : ℕ). given_back line.owner q cpu i (none_held i) in
      elim (Bool-cases driver.attached) [
        | inr absent ↦ rw absent (line, refl, refl, none_held)
        | inl present ↦ elim (Bool-cases (driver.stopped skb)) [
          | inl stopped ↦ rw (present, none_held q, stopped, taken) (_, refl, refl, still)
          | inr runs ↦ rw (present, none_held q, runs, taken, mine, own) (_, refl, refl, still)
        ]
      ]

  xmit_each-Sends :
      (skbs : List Skb) (line : Line)
      → IsFree line
      → Sends (xmit_all driver skbs line.wire) (xmit_each queue_of driver cpu skbs line)
  unfolding xmit_each xmit_all
  xmit_each-Sends [] line none_held = (line, refl, refl, none_held)
  xmit_each-Sends (skb ∷ rest) line none_held =
      let (next, run, wire, held) = xmit_skb-Sends skb line none_held in
      let (last, runs, wires, still) = xmit_each-Sends rest next held in
      (last, rw run runs, wires ∙ ap (λ w. xmit_all driver rest w) wire, still)

-- The packet's own lock is held, by this cpu, and no other.
abbrev pub IsHeld : ℕ → ℕ → Line → Type 0
IsHeld q cpu line = (i : ℕ) → line.owner i ≡ (if i == q then some cpu else none)

-- What becomes of a packet without the discipline, and with it.
pub record Agrees (queue_of : Skb → ℕ) (cpu : ℕ) (skb : Skb) (t : Transmitted) (e : Enqueued)
    : Type 0 where
  pub device : t.device ≡ e.device
  pub xmitted : t.line.wire.xmitted ≡ e.wire.xmitted
  pub fate :
      ((t.code ≡ tx_ok) × (e.code ≡ xmit_success) × (t.line.wire.freed ≡ e.wire.freed))
      ⊎ ((t.code ≡ tx_busy)
          × (e.code ≡ xmit_drop)
          × (t.line.wire.freed ++ (t.skb ∷ []) ≡ e.wire.freed))
  pub held : IsHeld (queue_of skb) cpu t.line

unlocked : (q cpu : ℕ) (line : Line) → IsHeld q cpu line → IsFree (hard_tx_unlock q line)
unfolding hard_tx_unlock
unlocked q cpu line held i = elim (Bool-cases (i == q)) [
  | inl here ↦ rw here refl
  | inr other ↦ rw other (rw other at (held i))
]

-- The lock is taken again.
relocked :
    (q cpu : ℕ) (line : Line)
    → IsFree line
    → IsHeld q cpu (record line { owner = set_cpu line.owner q (some cpu) })
relocked q cpu line none_held i = elim (Bool-cases (i == q)) [
  | inl here ↦ rw here refl
  | inr other ↦ rw other (none_held i)
]

module _ (queue_of : Skb → ℕ) (driver : Driver) (cpu : ℕ) (skb : Skb) where
  -- What a call returns that has taken the lock again.
  abbrev relock : NetdevTx → Skb → TxDevice → Line → Transmitted
  relock code out device line = record {
    code = code;
    skb = out;
    line = record line { owner = set_cpu line.owner (queue_of skb) (some cpu) };
    device = device;
  }

  -- The lock is taken, and the call returns.
  return_with : NetdevTx → Skb → TxDevice → Line → Result Transmitted
  return_with code out device line = hard_tx_lock (queue_of skb) cpu line >>= λ line'.
      ok (record { code = code; skb = out; line = line'; device = device })

  -- From the verdict on.
  finish : Sent → Line → Result Transmitted
  unfolding return_with
  finish sent line =
      for_verdict queue_of driver cpu sent line >>= λ r. return_with r.0 sent.skb sent.device r.1

  abbrev Returns : TxDevice → Result Transmitted → Enqueued → Type 0
  Returns device r e =
      (t : Transmitted) × (r ≡ ok t) × Agrees queue_of cpu skb t e × (t.device ≡ device)

  -- A packet that the caller does not get back.
  return_with-tx_ok :
      (out : Skb) (device : TxDevice) (line : Line) (wire : Wire)
      → line.wire ≡ wire
      → IsFree line
      → Returns device
          (return_with tx_ok out device line)
          (record { code = xmit_success; wire = wire; device = device })
  unfolding return_with
  return_with-tx_ok out device line wire e none_held =
      let taken = locks (queue_of skb) cpu line (none_held (queue_of skb)) in
      (
        relock tx_ok out device line,
        rw taken refl,
        record {
          device = refl;
          xmitted = ap (λ (w : Wire). w.xmitted) e;
          fate = inl (refl, refl, ap (λ (w : Wire). w.freed) e);
          held = relocked (queue_of skb) cpu line none_held;
        },
        refl,
      )

  finish-Returns :
      (verdict : Verdict) (out : Skb) (device : TxDevice) (skbs : List Skb) (line : Line)
      → line.wire ≡ xmit_all driver skbs nothing_out
      → IsFree line
      → let sent : Sent = record { verdict = verdict; skb = out; device = device; wire = skbs } in
        Returns device (finish sent line) (by_verdict driver sent)
  unfolding finish return_with for_verdict by_verdict
  finish-Returns drop out device skbs line e none_held =
      let taken = locks (queue_of skb) cpu line (none_held (queue_of skb)) in
      (
        relock tx_busy out device line,
        rw taken refl,
        record {
          device = refl;
          xmitted = ap (λ (w : Wire). w.xmitted) e;
          fate = inr (refl, refl, ap (λ (w : Wire). w.freed ++ (out ∷ [])) e);
          held = relocked (queue_of skb) cpu line none_held;
        },
        refl,
      )
  finish-Returns pass out device skbs line e none_held =
      let (last, run, wire, still) = xmit_skb-Sends queue_of driver cpu out line none_held in
      rw run (return_with-tx_ok out device last _ (wire ∙ ap (λ w. skb_xmit driver out w) e) still)
  finish-Returns success out device skbs line e none_held =
      return_with-tx_ok out device line _ e none_held
  finish-Returns error out device skbs line e none_held =
      return_with-tx_ok out device line _ e none_held

-- Without the queueing discipline a packet fares as with it: `iso_ndo_start_xmit`, which the kernel
-- calls with the lock of the packet's transmit queue, never waits for a lock, gives every packet to
-- the driver with its queue's lock, and returns with the one lock held again. It sends and frees the
-- packets that `iso_enqueue` does, in the same order, except that where `iso_enqueue` frees the packet
-- and reports NET_XMIT_DROP, it leaves the packet to the caller and reports NETDEV_TX_BUSY; and the
-- device is the same after both, and sound. (The device is sound, EyeQ is switched on, and the update
-- interval and the device's rate are not 0.)
pub iso_ndo_start_xmit-Agrees :
    (K : Kernel) (P : Params) (n : ℕ) (locks : TxLocks) (exiting : Bool) (driver : Driver) (cpu : ℕ)
    (queue_of : Skb → ℕ) (skb : Skb) (device : TxDevice) (owner : ℕ → Option ℕ)
    → IsSound device
    → 0 < P.iso_global_enabled
    → 0 < P.txc_update_interval_us
    → 0 < P.max_tx_rate
    → let line : Line = record { owner = owner; wire = nothing_out } in
      IsHeld (queue_of skb) cpu line
      → (t : Transmitted) × (e : Enqueued) × (iso_ndo_start_xmit queue_of K P n locks exiting driver
            cpu skb device line
          ≡ ok t)
        × (iso_enqueue K P n locks exiting driver cpu skb device ≡ ok e)
        × Agrees queue_of cpu skb t e
        × IsSound t.device
unfolding iso_ndo_start_xmit iso_enqueue finish return_with hard_tx_unlock
iso_ndo_start_xmit-Agrees K P n locks exiting driver cpu queue_of skb device owner v enabled
      interval rate held =
    let q = queue_of skb in
    let line : Line = record { owner = owner; wire = nothing_out } in
    let (sent, run, sound) = iso_tx-IsSound K P n locks exiting cpu skb device v interval rate in
    let (each, runs, wire, none_held) =
      xmit_each-Sends queue_of driver cpu sent.wire (hard_tx_unlock q line)
        (unlocked q cpu line held) in
    let (t, returns, agrees, same) =
      finish-Returns queue_of driver cpu skb sent.verdict sent.skb sent.device sent.wire each wire
        none_held in
    let on : (P.iso_global_enabled == 0) ≡ false = ground arith in
    (t, by_verdict driver sent, rw (run, runs) returns, rw (on, run) refl, agrees, rw same sound)
