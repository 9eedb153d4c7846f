-- ===== src/Rl/Tasklet/Runs.antt =====
-- A run of the tasklet: it ends, and keeps the invariant of the waiting queues.
use mathlib.Core.Path.{◌≡⟨◌⟩◌, ◌∎}
use mathlib.Core.List.{append-nil, append_assoc}
use eyeq.Common.{
  ℕ, zero, suc, ◌+◌, ◌*◌, ◌≤◌, ◌≡◌, refl, sym, ap, ◌∙◌, ◌⊎◌, Bool, true, false, List, [], ◌∷◌, ◌++◌,
  arith, add32, ◌==◌, Bool-cases, inl, inr, Distinct, length, length-append, ok,
}
use eyeq.Kernel.{Kernel}
use eyeq.Params.{Params}
use eyeq.Rl.Tasklet.{
  Limiters, Round, stops, round_on, tasklet_loop, head_of, stamp, rearm, xmit_tasklet,
}
use eyeq.Rl.Tasklet.Waiting.{IsWaiting}
use eyeq.Rl.Tasklet.Rounds.{IsRound, serve_queue-IsRound}

-- What rounds from a count on leave. `log` has the queues that were served, and `added` those that
-- joined the list, oldest first.
pub record IsRun (cpu count : ℕ) (t t' : Limiters) : Type 0 where
  pub waiting : IsWaiting cpu t'
  pub log : List ℕ
  pub added : List ℕ
  pub served : t'.served ≡ t.served ++ log
  pub queue : t.cb.active_list ++ added ≡ log ++ t'.cb.active_list
  pub bounded : count + 2 * length log ≤ 501

no_round : (cpu count : ℕ) (t : Limiters) → IsWaiting cpu t → count ≤ 501 → IsRun cpu count t t
no_round cpu count t v h = record {
  waiting = v;
  log = [];
  added = [];
  served = sym (append-nil t.served);
  queue = append-nil t.cb.active_list;
  bounded = omega arith;
}

one_round :
    (cpu count i : ℕ) (rest : List ℕ) (t t' : Limiters)
    → t.cb.active_list ≡ i ∷ rest
    → count + 1 ≤ 500
    → IsRound cpu i rest t t'
    → IsRun cpu count t t'
one_round cpu count i rest t t' e h r = record {
  waiting = r.waiting;
  log = i ∷ [];
  added = r.added;
  served = r.served;
  queue = rw (e, r.queue) refl;
  bounded = omega arith;
}

more_rounds :
    {cpu count : ℕ} {t t1 t' : Limiters}
    → (r : IsRun cpu count t t1) → length r.log ≤ 1
    → IsRun cpu (count + 2) t1 t'
    → IsRun cpu count t t'
more_rounds {t = t} {t1 = t1} {t' = t'} r one s = record {
  waiting = s.waiting;
  log = r.log ++ s.log;
  added = r.added ++ s.added;
  served =
      s.served ∙ ap (λ (xs : List ℕ). xs ++ s.log) r.served ∙ append_assoc t.served r.log s.log;
  queue =
      t.cb.active_list ++ (r.added ++ s.added)
      ≡⟨ sym (append_assoc t.cb.active_list r.added s.added) ⟩
        (t.cb.active_list ++ r.added) ++ s.added
      ≡⟨ ap (λ (xs : List ℕ). xs ++ s.added) r.queue ⟩ (r.log ++ t1.cb.active_list) ++ s.added
      ≡⟨ append_assoc r.log t1.cb.active_list s.added ⟩ r.log ++ (t1.cb.active_list ++ s.added)
      ≡⟨ ap (λ (xs : List ℕ). r.log ++ xs) s.queue ⟩ r.log ++ (s.log ++ t'.cb.active_list)
      ≡⟨ sym (append_assoc r.log s.log t'.cb.active_list) ⟩ (r.log ++ s.log) ++ t'.cb.active_list ∎;
  bounded = omega (arith, length-append r.log s.log, s.bounded);
}

-- If the round's test lets it, the head is served first.
abbrev Begins : ℕ → List ℕ → Type 0
Begins i log = (later : List ℕ) × (log ≡ i ∷ later)

abbrev Starts : Params → ℕ → ℕ → ℕ → List ℕ → List ℕ → Type 0
Starts P first count sent [] log = Unit {0}
Starts P first count sent (i ∷ []) log = stops P false count sent ≡ false → Begins i log
Starts P first count sent (i ∷ j ∷ rest) log =
    stops P (j == first) count sent ≡ false → Begins i log

Begins-append : (i : ℕ) (log later : List ℕ) → Begins i log → Begins i (log ++ later)
Begins-append i log later (rest, e) = (rest ++ later, rw e refl)

Starts-append :
    (P : Params) (first count sent : ℕ) (ids log later : List ℕ)
    → Starts P first count sent ids log
    → Starts P first count sent ids (log ++ later)
Starts-append P first count sent [] log later h = tt
Starts-append P first count sent (i ∷ []) log later h = λ go. Begins-append i log later (h go)
Starts-append P first count sent (i ∷ j ∷ rest) log later h = λ go. Begins-append i log later (h go)

-- A round that goes on has served the head, and its count is below the budget.
record Rounded (P : Params) (cpu first count sent : ℕ) (ids : List ℕ) (t t' : Limiters)
    (more : Bool) : Type 0 where
  run : IsRun cpu count t t'
  one : length run.log ≤ 1
  starts : Starts P first count sent ids run.log
  within : (more ≡ false) ⊎ (count + 1 ≤ 500)

within_budget :
    (P : Params) (full : Bool) (count sent : ℕ) → stops P full count sent ≡ false → count + 1 ≤ 500
unfolding stops
within_budget P full count sent h = ground arith

refuted : {b : Bool} → b ≡ true → b ≡ false → ⊥
refuted stop go = cc

module _ (K : Kernel) (P : Params) (round : Round) (cpu first : ℕ) where
  round_on-Rounded :
      (count sent : ℕ) (ids : List ℕ) (t : Limiters)
      → IsWaiting cpu t
      → t.cb.active_list ≡ ids
      → count ≤ 501
      → (more : Bool) × (sent' : ℕ) × (t' : Limiters) × (round_on K P round false cpu first count
            sent ids t
          ≡ ok (more, sent', t'))
        × Rounded P cpu first count sent ids t t' more
  unfolding round_on no_round one_round
  round_on-Rounded count sent [] t v e h = (
    false,
    sent,
    t,
    refl,
    record { run = no_round cpu count t v h; starts = tt; one = omega arith; within = inl refl },
  )
  round_on-Rounded count sent (i ∷ []) t v e h = elim (Bool-cases (stops P false count sent)) [
    | inl stop ↦ (
      false,
      sent,
      t,
      rw (round_on, stop) refl,
      record {
        run = no_round cpu count t v h;
        starts = λ go. absurd (refuted stop go);
        one = omega arith;
        within = inl refl;
      },
    )
    | inr go ↦
        let (t', bytes, run, r) = serve_queue-IsRound K P round cpu i [] t v e in
        let budget = within_budget P false count sent go in
        (
          false,
          add32 sent bytes,
          t',
          rw (round_on, go, run) refl,
          record {
            run = one_round cpu count i [] t t' e budget r;
            starts = λ go'. ([], refl);
            one = omega arith;
            within = inl refl;
          },
        )
  ]
  round_on-Rounded count sent (i ∷ j ∷ more) t v e h =
      elim (Bool-cases (stops P (j == first) count sent)) [
        | inl stop ↦ (
          false,
          sent,
          t,
          rw (round_on, stop) refl,
          record {
            run = no_round cpu count t v h;
            starts = λ go. absurd (refuted stop go);
            one = omega arith;
            within = inl refl;
          },
        )
        | inr go ↦
            let (t', bytes, run, r) = serve_queue-IsRound K P round cpu i (j ∷ more) t v e in
            let budget = within_budget P (j == first) count sent go in
            (
              true,
              add32 sent bytes,
              t',
              rw (round_on, go, run) refl,
              record {
                run = one_round cpu count i (j ∷ more) t t' e budget r;
                starts = λ go'. ([], refl);
                one = omega arith;
                within = inr budget;
              },
            )
      ]

-- The loop ends before its fuel.
tasklet_loop-IsRun :
    (K : Kernel) (P : Params) (rounds : ℕ → Round) (cpu first fuel count sent : ℕ) (t : Limiters)
    → IsWaiting cpu t
    → count ≤ 501
    → 502 ≤ count + 2 * fuel
    → (t' : Limiters) × (tasklet_loop K P rounds false cpu first fuel count sent t ≡ ok t')
      × (r : IsRun cpu count t t') × Starts P first count sent t.cb.active_list r.log
unfolding tasklet_loop more_rounds
tasklet_loop-IsRun K P rounds cpu first zero count sent t v h enough = absurd (omega arith)
tasklet_loop-IsRun K P rounds cpu first (suc fuel) count sent t v h enough =
    let (more, sent', t1, run, r) =
      round_on-Rounded K P (rounds count) cpu first count sent t.cb.active_list t v refl h in
    elim (Bool-cases more) [
      | inl on ↦
          let budget : count + 1 ≤ 500 = ground (arith, on, r.within) in
          let (t', rest, s, later) =
            tasklet_loop-IsRun K P rounds cpu first fuel (count + 2) sent' t1 r.run.waiting
              (omega arith) (omega arith) in
          (
            t',
            rw (tasklet_loop, run, on) rest,
            more_rounds r.run r.one s,
            Starts-append P first count sent t.cb.active_list r.run.log s.log r.starts,
          )
      | inr over ↦ (t1, rw (tasklet_loop, run, over) refl, r.run, r.starts)
    ]

-- What a whole run leaves.
pub record IsTasked (cpu : ℕ) (t t' : Limiters) : Type 0 where
  pub waiting : IsWaiting cpu t'
  pub timer : (t'.cb.active_list ≡ []) ⊎ (t'.cb.timer ≡ true)
  pub log : List ℕ
  pub added : List ℕ
  pub served : t'.served ≡ t.served ++ log
  pub queue : t.cb.active_list ++ added ≡ log ++ t'.cb.active_list
  pub head : (t.cb.active_list ≡ []) ⊎ ((i : ℕ) × (later : List ℕ) × (log ≡ i ∷ later))
  pub bounded : length log ≤ 250

-- The first round's test does not stop it.
first_round :
    (P : Params) (ids log : List ℕ)
    → Distinct ids
    → Starts P (head_of ids) 0 0 ids log
    → (ids ≡ []) ⊎ ((i : ℕ) × (later : List ℕ) × (log ≡ i ∷ later))
unfolding stops
first_round P [] log d h = inl refl
first_round P (i ∷ []) log d h = let (later, e) = h (ground arith) in inr (i, later, e)
first_round P (i ∷ j ∷ rest) log d h = let (later, e) = h (ground (arith, d.0)) in inr (i, later, e)

rearm_lem :
    (cpu : ℕ) (t : Limiters) (ids : List ℕ)
    → IsWaiting cpu t
    → t.cb.active_list ≡ ids
    → IsWaiting cpu (rearm false t)
      × ((rearm false t).cb.active_list ≡ ids)
      × ((rearm false t).served ≡ t.served)
      × ((ids ≡ []) ⊎ ((rearm false t).cb.timer ≡ true))
unfolding rearm
rearm_lem cpu t [] v e = rw (rearm, e) (v, e, refl, inl refl)
rearm_lem cpu t (i ∷ rest) v e =
    rw (rearm, e)
      (record { listed = v.listed; held = v.held; parents = v.parents }, e, refl, inr refl)

-- A run of the tasklet whose cpu's queues are in order ends, within its 251 rounds of fuel and with
-- at most 250 queues served, and leaves them in order: the list holds exactly the marked queues, each
-- once, and each queue with packets is marked. The timer is set unless no queue waits. The queues are
-- served from the head, at least one if one waits; those that have not been served keep their order,
-- before those that joined the list meanwhile. (Whatever trylocks fail, and if the module does not
-- exit.)
pub xmit_tasklet-IsTasked :
    (K : Kernel) (P : Params) (n : ℕ) (rounds : ℕ → Round) (cpu : ℕ) (t : Limiters)
    → IsWaiting cpu t
    → (t' : Limiters) × (xmit_tasklet K P n rounds false cpu t ≡ ok t') × IsTasked cpu t t'
unfolding xmit_tasklet stamp
xmit_tasklet-IsTasked K P n rounds cpu t v =
    let begin : Limiters = record t { cb = stamp K n t.cb } in
    let (t1, run, r, starts) =
      tasklet_loop-IsRun K P rounds cpu (head_of t.cb.active_list) 251 0 0 begin
        (record { listed = v.listed; held = v.held; parents = v.parents }) (omega arith)
        (omega arith) in
    let (waiting, queue, served, timer) = rearm_lem cpu t1 t1.cb.active_list r.waiting refl in
    (
      rearm false t1,
      rw (xmit_tasklet, run) refl,
      record {
        waiting = waiting;
        timer = rw queue timer;
        log = r.log;
        added = r.added;
        served = served ∙ r.served;
        queue = rw queue r.queue;
        head = first_round P t.cb.active_list r.log v.listed.distinct starts;
        bounded = omega (arith, r.bounded);
      },
    )
