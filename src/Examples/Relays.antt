-- ===== src/Examples/Relays.antt =====
-- The limiter of one destination at concrete inputs.
use eyeq.Common.{◌≡◌, refl, true, false, [], ◌∷◌, arith}
use eyeq.Params.{defaults}
use eyeq.Rl.{Rl, RlQueue, RlCb}
use eyeq.Rl.Enqueue.{has_space_for}
use eyeq.Rl.Relay.{dequeue_child}
use eyeq.Rl.Relay.Handed.{IsHanded}
use eyeq.Rl.Relay.Calls.{IsRelayed, dequeue_child-IsRelayed}
use eyeq.Examples.{packet, short, kernel}

abbrev pub queue_of_two : RlQueue
queue_of_two = record {
  list = packet ∷ short ∷ [];
  first_pkt_size = 1000;
  bytes_enqueued = 1500;
  bytes_xmit = 0;
  feedback_backlog = 0;
  tokens = 0;
  cpu = 0;
  active = false;
}

abbrev pub child : Rl
child = record {
  id = 6;
  rate = 800;
  ip = 11;
  total_tokens = 1200;
  accum_xmit = 0;
  accum_enqueued = 0;
  last_update_time = 0;
  last_rate_update_time = 0;
  queue = λ i. queue_of_two;
  txc = true;
}

abbrev pub parent : Rl
parent = record child { id = 7; ip = 0; txc = false; rate = 2000 }

abbrev pub block : RlCb
block = record { active_list = []; timer = false; last = 0; avg_us = 0; cpu = 0; tx_bytes = 0 }

has_space-parent : has_space_for defaults parent packet 0 ≡ true
unfolding has_space_for
has_space-parent = refl

dequeue_child-IsRelayed_example :
    let r = dequeue_child kernel defaults 1 true true false child parent 0 block in
    IsRelayed defaults false child 0 r × IsHanded kernel defaults 0 1 true true false parent block r
dequeue_child-IsRelayed_example =
    dequeue_child-IsRelayed kernel defaults 1 true true false child parent 0 block (record {
      counted = refl;
      tokens_fit = omega arith;
      queue_fits = omega arith;
      xmit_fits = omega arith;
    })
