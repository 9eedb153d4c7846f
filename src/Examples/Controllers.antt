-- ===== src/Examples/Controllers.antt =====
-- The rate controller of a destination and its feedback packets, at concrete inputs.
use eyeq.Common.{◌+◌, ◌-◌, ◌*◌, ◌^◌, ◌≤◌, ◌≡◌, refl, true, arith}
use eyeq.Kernel.{Skb}
use eyeq.Params.{defaults}
use eyeq.Packet.{has_feedback}
use eyeq.Rc.{RcState, fast_recovery, rc_rx}
use eyeq.Rc.Bounds.{IsBounded, rc_rx-IsBounded, rounds, rounds_recover}
use eyeq.Examples.{packet, kernel}

-- A controller after a decrease from 5000 to 2500.
abbrev controller : RcState
controller = record {
  rfair = 2500;
  rfair_target = 5000;
  state = fast_recovery;
  alpha = 0;
  count = 0;
  stats = λ i. record { num_marked = 0; num_rx = 0 };
  last_rfair_change_time = 0;
  last_rfair_decrease_time = 0;
  last_feedback_time = 0;
}

-- A feedback packet whose mark is 256.
abbrev feedback : Skb
feedback = record packet { protocol = 143; id = 256 }

has_feedback-feedback : has_feedback defaults feedback ≡ 256
unfolding has_feedback
has_feedback-feedback = refl

rc_rx-IsBounded_example :
    IsBounded defaults (rc_rx kernel defaults 500 true 0 feedback controller).1
rc_rx-IsBounded_example =
    rc_rx-IsBounded kernel defaults 500 true 0 feedback controller
      (record { ordered = omega arith; idle = omega arith; words = omega arith })
      (rw has_feedback-feedback (omega arith))
      (record {
        least = omega arith;
        most = omega arith;
        target_least = omega arith;
        target_most = omega arith;
      })

rounds_recover_example :
    let rc' = rounds 5 defaults controller in
    (rc'.rfair ≤ 5000)
    × (rc'.rfair_target ≡ 5000)
    × (2 ^ 5 * (5000 - rc'.rfair) + 1 ≤ 5000 - 2500 + 2 ^ 5)
rounds_recover_example =
    rounds_recover 5 defaults controller refl (omega arith) (omega arith) (omega arith)
