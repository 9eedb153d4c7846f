-- ===== src/Examples/Exhausted.antt =====
-- A class whose pool of states has run out.
use eyeq.Common.{[], none, some, ◌==◌, if◌then◌else◌}
use eyeq.Kernel.{Skb}
use eyeq.Params.{defaults}
use eyeq.Rx.Handler.{Device}
use eyeq.Tx.States.{Pool}
use eyeq.Examples.{packet}
use eyeq.Examples.Traffic.{used, pool, device}

-- State 1 is in use, and none is in the pool.
abbrev empty : Pool
empty = record pool {
  prealloc_states = [];
  freelist_count = 0;
  states = λ i. if i == 1 then some used else none;
}

abbrev worn : Device
worn = record device {
  tx = record device.tx {
    pools = λ c. if c == 1 then some pool else if c == 2 then some empty else none;
  };
}

abbrev marked : Skb
marked = record packet { protocol = defaults.feedback_packet_ipproto; id = 1 }
