-- ===== src/Examples/Tasklets.antt =====
-- The tasklet at concrete inputs: a child and its parent wait, each with two packets.
use eyeq.Common.{
  ℕ, ◌+◌, ◌-◌, ◌*◌, ◌++◌, ◌≡◌, refl, true, false, List, [], ◌∷◌, none, arith, ◌==◌, Bool-cases, inl,
  inr, contains, Result, fault, ok,
}
use eyeq.Common.Store.{Store, write, free}
use eyeq.Params.{defaults}
use eyeq.Rl.{Rl, clock}
use eyeq.Rl.Dequeue.{replenish}
use eyeq.Rl.Relay.{dequeue_child}
use eyeq.Rl.Tasklet.{Limiters, Round, serve_queue, stamp, rearm, xmit_tasklet}
use eyeq.Rl.Tasklet.Freed.{rl_free_dangles}
use eyeq.Rl.Tasklet.Waiting.{IsWaiting, IsListed}
use eyeq.Rl.Tasklet.Runs.{IsTasked, xmit_tasklet-IsTasked}
use eyeq.Rl.Tasklet.Turns.{tasklet_runs, tasklet_runs-serves, xmit_tasklet_stops_short}
use eyeq.Rl.Tasklet.Schedule.{Cpu, Step, Reach, IsLive, Reach-IsLive}
use eyeq.Tx.Free.{free_at}
use eyeq.Examples.{kernel}
use eyeq.Examples.Relays.{queue_of_two, child, parent, block}

abbrev listed : Rl → Rl
listed rl = record rl { queue = λ i. record queue_of_two { active = true } }

-- The limiter at 6 is the child of that at 7.
abbrev stored : Store Rl
stored = write (write (λ i. none) 6 (listed child)) 7 (listed parent)

abbrev two_waiting : Limiters
two_waiting = record {
  rls = stored;
  parent = λ i. 7;
  cb = record block { active_list = 6 ∷ 7 ∷ []; timer = true };
  wire = [];
  served = [];
}

two_waiting-IsListed : IsListed 0 stored (6 ∷ 7 ∷ [])
two_waiting-IsListed = record {
  listed = λ i. elim (Bool-cases (i == 7)) [
    | inl last ↦ rw last (ground (arith, last))
    | inr other ↦ elim (Bool-cases (i == 6)) [
      | inl first ↦ rw (other, first) refl
      | inr neither ↦ rw (other, neither) refl
    ]
  ];
  distinct = (refl, (refl, tt));
  named = λ i. elim (Bool-cases (i == 7)) [
    | inl last ↦ rw last (ground (arith, last))
    | inr other ↦ elim (Bool-cases (i == 6)) [
      | inl first ↦ rw (other, first) (ground (arith, first))
      | inr neither ↦ rw (other, neither) tt
    ]
  ];
}

two_waiting-IsWaiting : IsWaiting 0 two_waiting
two_waiting-IsWaiting = record {
  listed = two_waiting-IsListed;
  held = λ i. elim (Bool-cases (i == 7)) [
    | inl last ↦ rw last (inr refl)
    | inr other ↦ elim (Bool-cases (i == 6)) [
      | inl first ↦ rw (other, first) (inr refl)
      | inr neither ↦ rw (other, neither) tt
    ]
  ];
  parents = λ i. elim (Bool-cases (i == 7)) [
    | inl last ↦ rw last (inl refl)
    | inr other ↦ elim (Bool-cases (i == 6)) [
      | inl first ↦ rw (other, first) (inr (listed parent, refl, refl))
      | inr neither ↦ rw (other, neither) tt
    ]
  ];
}

abbrev all_free : ℕ → Round
all_free count = record { child = true; root = true; reading = 3 + count }

-- The trylocks of the child fail.
abbrev child_busy : ℕ → Round
child_busy count = record { child = false; root = true; reading = count }

xmit_tasklet-IsTasked_example :
    (t' : Limiters) × (xmit_tasklet kernel defaults 1 all_free false 0 two_waiting ≡ ok t')
    × IsTasked 0 two_waiting t'
xmit_tasklet-IsTasked_example =
    xmit_tasklet-IsTasked kernel defaults 1 all_free 0 two_waiting two_waiting-IsWaiting

tasklet_runs-serves_example :
    (t' : Limiters) × (log : List ℕ) × (tasklet_runs kernel defaults
        (λ k. 1000 - 300 * k)
        (λ k. child_busy)
        0
        2
        two_waiting
      ≡ ok t')
    × (t'.served ≡ two_waiting.served ++ log)
    × (contains 7 log ≡ true)
tasklet_runs-serves_example =
    tasklet_runs-serves kernel defaults (λ k. 1000 - 300 * k) (λ k. child_busy) 0 7 2 (6 ∷ []) []
      two_waiting two_waiting-IsWaiting refl (omega arith)

-- The child has no tokens, does not get the lock, and waits again behind its parent.
abbrev begun : Limiters
begun = record two_waiting {
  cb = record block { active_list = 6 ∷ 7 ∷ []; timer = true; last = 100; avg_us = 100 };
}

abbrev outcome : Result (Limiters × ℕ) → Limiters × ℕ
outcome fault = (two_waiting, 0)
outcome (ok r) = r

first_served : Limiters × ℕ
unfolding serve_queue clock dequeue_child
first_served = outcome (serve_queue kernel defaults (child_busy 0) false 0 6 (7 ∷ []) begun)

first_served_lem :
    serve_queue kernel defaults
      (child_busy 0)
      false
      0
      6
      (7 ∷ [])
      (record two_waiting { cb = stamp kernel 1 two_waiting.cb })
    ≡ ok (first_served.0, first_served.1)
unfolding first_served stamp
first_served_lem = refl

first_served_list : (first_served.0).cb.active_list ≡ 7 ∷ 6 ∷ []
unfolding first_served replenish
first_served_list = refl

xmit_tasklet_stops_short_example :
    xmit_tasklet kernel defaults 1 child_busy false 0 two_waiting ≡ ok (rearm false first_served.0)
xmit_tasklet_stops_short_example =
    xmit_tasklet_stops_short kernel defaults 1 child_busy 0 6 7 two_waiting first_served.0
      first_served.1 two_waiting-IsWaiting refl first_served_lem first_served_list

abbrev waiting_cpu : Cpu
waiting_cpu = record { limiters = two_waiting; scheduled = false }

abbrev fired_cpu : Cpu
fired_cpu = record {
  limiters = record two_waiting { cb = record block { active_list = 6 ∷ 7 ∷ []; timer = false } };
  scheduled = true;
}

fired : Reach kernel defaults 0 waiting_cpu fired_cpu
fired = Reach.next Reach.here (Step.timer_fires waiting_cpu refl)

Reach-IsLive_example : IsLive 0 fired_cpu
Reach-IsLive_example =
    Reach-IsLive {K = kernel} {P = defaults} {cpu = 0} {s = waiting_cpu} {u = fired_cpu}
      (record { waiting = two_waiting-IsWaiting; woken = inr (inl refl) }) fired

-- The child is released while it waits.
rl_free_dangles_example :
    xmit_tasklet kernel defaults 1 all_free false 0 (record two_waiting { rls = free stored 6 })
    ≡ fault
unfolding free_at
rl_free_dangles_example =
    rl_free_dangles kernel defaults 1 all_free 0 6 (7 ∷ []) two_waiting (free stored 6) refl
      (refl, (refl, tt)) refl
