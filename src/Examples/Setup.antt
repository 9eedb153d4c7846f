-- ===== src/Examples/Setup.antt =====
-- Setting up and loading at concrete inputs.
use eyeq.Common.{◌≡◌, refl, true, false, ◌∷◌, [], some}
use eyeq.Module.{Accepts, Module, iso_init, trim}
use eyeq.Module.Loading.{IsLoaded, unregistered, iso_init-IsLoaded}
use eyeq.Qdisc.Mq.{Answers, Held, other_handler, mq_init}
use eyeq.Qdisc.Mq.Outcomes.{IsOutcome, mq_init-IsOutcome}

abbrev willing : Answers
willing = record {
  array = true;
  tx_memory = true;
  rx_memory = true;
  rlcb = true;
  netdev_ops = true;
  stats = true;
  child = λ i. true;
}

-- A machine with a device that belongs to a bridge.
abbrev bridged : Held
bridged = record {
  arrays = 1;
  tx_contexts = 1;
  rx_contexts = 1;
  rlcbs = 1;
  stats = 1;
  children = 4;
  handler = some other_handler;
}

mq_init-IsOutcome_example : IsOutcome 2 willing bridged (mq_init true 2 willing bridged)
mq_init-IsOutcome_example = mq_init-IsOutcome 2 willing bridged

abbrev refusing : Accepts
refusing = record { sysctl = true; stats_proc = true; csvstats_proc = true; qdisc = false }

-- "p3", and a line end.
abbrev fresh : Module
fresh = record {
  sysctl = true;
  stats_proc = false;
  csvstats_proc = false;
  qdisc = false;
  iso_exiting = false;
  iso_param_dev = some (112 ∷ 51 ∷ 10 ∷ []);
}

trimmed : trim 32 (112 ∷ 51 ∷ 10 ∷ []) ≡ 112 ∷ 51 ∷ []
unfolding trim
trimmed = refl

iso_init-IsLoaded_example : IsLoaded refusing fresh (iso_init refusing (unregistered fresh))
iso_init-IsLoaded_example = iso_init-IsLoaded refusing fresh
