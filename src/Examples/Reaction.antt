-- ===== src/Examples/Reaction.antt =====
-- Feedback that is applied and generated, at concrete inputs.
use eyeq.Common.{◌≡◌, refl, true, false, [], ◌∷◌, some, none, arith, ok, ◌==◌, if◌then◌else◌}
use eyeq.Common.Store.{Holds}
use eyeq.Kernel.{Skb}
use eyeq.Packet.{has_feedback}
use eyeq.Params.{defaults}
use eyeq.Rc.{rc_init}
use eyeq.Rl.{Rl, rl_init, success}
use eyeq.Rx.Feedback.{apply_feedback, generate_due}
use eyeq.Rx.Feedback.Laws.{feedback_reaches}
use eyeq.Tx.States.{entry, DestState, Pool, peer}
use eyeq.Vq.{Vq}
use eyeq.Examples.{packet, kernel}

abbrev limiter : Rl
limiter = record (rl_init kernel defaults 0 5 11) { txc = true }

abbrev state : DestState
state = record {
  ip_key = 11;
  rl = entry 5;
  tx_rc = record (rc_init kernel defaults 0) { last_rfair_change_time = 0 };
}

abbrev pool : Pool
pool = record {
  rl_bucket = λ b. if b == 11 then 5 ∷ [] else [];
  state_bucket = λ b. if b == 11 then 1 ∷ [] else [];
  prealloc_states = [];
  prealloc_rls = [];
  freelist_count = 0;
  states = λ i. if i == 1 then some state else none;
  rls = λ j. if j == 5 then some limiter else none;
  scheduled = false;
}

-- A feedback packet with the rate 4000.
abbrev feedback : Skb
feedback = record packet { protocol = 143; id = 4000; saddr = 11; daddr = 10 }

has_feedback-4000 : has_feedback defaults feedback ≡ 4000
unfolding has_feedback
has_feedback-4000 = refl

-- A queue that has received 9500 bytes since it last sent feedback.
abbrev queue : Vq
queue = record {
  enabled = 1;
  is_static = false;
  rate = 10;
  total_bytes_queued = 0;
  feedback_rate = 3000;
  rx_rate = 0;
  last_rx_bytes = 0;
  weight = 1;
  alpha = 0;
  last_update_time = 0;
  last_borrow_time = 0;
  percpu_stats = λ i. record {
    bytes_queued = 9500;
    network_marked = 0;
    rx_packets = 10;
    rx_bytes = 9500;
    last_feedback_gen_time = 0;
    rx_since_last_feedback = 9500;
    rx_marked_since_last_feedback = 0;
  };
  klass = 9;
  refcnt = 0;
}

feedback_reaches_example :
    (fb : Skb) × (vq' : Vq) × (pool' : Pool) × (generate_due kernel defaults 50 60 true success 0
        packet queue
      ≡ (some fb, vq'))
    × (fb.daddr ≡ 10)
    × (peer kernel true fb ≡ peer kernel false packet)
    × (apply_feedback kernel defaults 500 true fb 1 pool ≡ ok pool')
    × Holds (λ rl'. rl'.rate ≡ 3000) pool'.rls 5
feedback_reaches_example =
    feedback_reaches kernel defaults 50 60 0 packet queue 500 1 5 state limiter pool (omega arith)
      (omega arith) refl (omega arith) (omega arith) (omega arith) (omega arith) refl refl refl
      (omega arith)
