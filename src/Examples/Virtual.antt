-- ===== src/Examples/Virtual.antt =====
-- The virtual queues at concrete inputs.
use eyeq.Common.{
  ◌-◌, ◌*◌, ◌/◌, ◌≤◌, ◌≡◌, refl, true, false, [], ◌∷◌, arith, fault, ok, min_of, max_of, sum_by,
}
use eyeq.Common.Int.{pos}
use eyeq.Params.{defaults}
use eyeq.Vq.{Vq}
use eyeq.Vq.Drain.{next_feedback}
use eyeq.Vq.Drain.Feedback.{feedback_law}
use eyeq.Vq.Rates.{dynamic_rate}
use eyeq.Common.{some, none, ◌==◌, if◌then◌else◌}
use eyeq.Common.Store.{at}
use eyeq.Tx.Classes.{done}
use eyeq.Vq.Table.{VqTable, vq_find, find_vq_in, delete_vq, recalculate}
use eyeq.Vq.Table.Laws.{delete_vq_dangles, IsListed, recalculate_fit}
use eyeq.Examples.{kernel}

-- A queue of weight 2 that has received 100000 bytes in 10 packets since the last drain.
abbrev pub queue : Vq
queue = record {
  enabled = 1;
  is_static = false;
  rate = 10;
  total_bytes_queued = 0;
  feedback_rate = 3000;
  rx_rate = 0;
  last_rx_bytes = 0;
  weight = 2;
  alpha = 0;
  last_update_time = 0;
  last_borrow_time = 0;
  percpu_stats = λ i. record {
    bytes_queued = 50000;
    network_marked = 0;
    rx_packets = 5;
    rx_bytes = 50000;
    last_feedback_gen_time = 0;
    rx_since_last_feedback = 5;
    rx_marked_since_last_feedback = 0;
  };
  klass = 9;
  refcnt = 0;
}

abbrev unweighted : Vq
unweighted = record queue { weight = 0 }

abbrev fixed : Vq
fixed = record queue { is_static = true; rate = 100 }

feedback_law-run : next_feedback defaults 3000 4000 (pos 2000) ≡ ok 3750
unfolding next_feedback
feedback_law-run = refl

feedback_law_example :
    next_feedback defaults 3000 4000 (pos 2000)
    ≡ ok (max_of 10 (min_of 4000 (3000 * (3 * 4000 - 2000) / (2 * 4000))))
feedback_law_example =
    feedback_law defaults 3000 4000 2000 (omega arith) (omega arith) (omega arith) (omega arith)
      (omega arith)

abbrev table : VqTable
table = record {
  vq_list = 1 ∷ 2 ∷ [];
  vq_bucket = λ b. if b == 9 then 1 ∷ [] else [];
  vqs = λ i. if i == 1 then some queue else if i == 2 then some fixed else none;
}

found-queue : vq_find kernel 9 table ≡ ok (some 1)
unfolding vq_find find_vq_in
found-queue = refl

delete_vq_dangles_example :
    (table' : VqTable) × (delete_vq kernel 9 table ≡ ok (done, table'))
    × (vq_find kernel 9 table' ≡ fault)
delete_vq_dangles_example = delete_vq_dangles kernel 9 1 table queue found-queue refl refl

recalculate_fit_example :
    (table' : VqTable) × (recalculate defaults table ≡ ok table')
    × IsListed table'
    × (table'.vq_list ≡ 1 ∷ 2 ∷ [])
    × (sum_by (at dynamic_rate table'.vqs) table'.vq_list ≤ 9000)
recalculate_fit_example =
    recalculate_fit defaults table ((queue, refl), ((fixed, refl), tt)) (omega arith) (omega arith)
