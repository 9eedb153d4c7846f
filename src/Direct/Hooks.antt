-- ===== src/Direct/Hooks.antt =====
-- How EyeQ is put on a device without a queueing discipline and taken off it, and what is received.
use eyeq.Common.{ℕ, ◌<◌, ◌≡◌, refl, sym, Bool, true, false, none, some, arith, ◌==◌, ok}
use eyeq.Kernel.{Kernel, Skb}
use eyeq.Params.{Params}
use eyeq.Rx.Handler.{RxLocks, Device}
use eyeq.Qdisc.{iso_rx_handler}
use eyeq.Qdisc.Mq.{eyeq_handler}
use eyeq.Direct.{
  rx_handler, Start, eyeq_xmit, Hook, tx_hook_init, tx_hook_exit, rx_hook_begin, rx_hook_end,
}

-- On an enabled device with EyeQ switched on, the two builds hand a received packet on alike.
rx_handler-iso_rx_handler :
    (K : Kernel) (P : Params) (n : ℕ) (locks : RxLocks) (loopback : Bool) (cpu : ℕ) (skb : Skb)
    (device : Device)
    → 0 < P.iso_global_enabled
    → iso_rx_handler K P n locks loopback true cpu skb device
      ≡ rx_handler K P n locks loopback cpu skb device
unfolding rx_handler iso_rx_handler
rx_handler-iso_rx_handler K P n locks loopback cpu skb device enabled =
    let on : (P.iso_global_enabled == 0) ≡ false = ground arith in rw on refl

-- Both hooks: while the module is loaded the device sends through EyeQ, and EyeQ through the device's own
-- function, and what is received goes to EyeQ; then both are as before, where the device has
-- operations and no receive handler.
hooks-restored :
    (hook : Hook) (start : Start)
    → hook.netdev ≡ some (some start)
    → hook.handler ≡ none
    → (hooked : Hook) × (receives : Hook) × (left : Hook) × (restored : Hook) × (tx_hook_init hook
        ≡ (true, hooked))
      × (rx_hook_begin hooked ≡ (true, receives))
      × (receives.netdev ≡ some (some eyeq_xmit))
      × (receives.old ≡ start)
      × (receives.handler ≡ some eyeq_handler)
      × (tx_hook_exit receives ≡ ok left)
      × (rx_hook_end left ≡ ok restored)
      × (restored.netdev ≡ hook.netdev)
      × (restored.handler ≡ hook.handler)
unfolding tx_hook_init tx_hook_exit rx_hook_begin rx_hook_end
hooks-restored hook start e none_there =
    let hooked : Hook = record hook { netdev = some (some eyeq_xmit); old = start; xmit = start } in
    let receives : Hook = record hooked { handler = some eyeq_handler } in
    let left : Hook = record receives { netdev = some (some start) } in
    (
      hooked,
      receives,
      left,
      record left { handler = none },
      rw e refl,
      rw none_there refl,
      refl,
      refl,
      refl,
      refl,
      refl,
      sym e,
      sym none_there,
    )
