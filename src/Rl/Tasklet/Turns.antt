-- ===== src/Rl/Tasklet/Turns.antt =====
-- Runs of the tasklet: the queues that wait take turns.

use mathlib.Core.List.{append-nil, append_assoc}
use eyeq.Common.{
  ℕ, zero, suc, ◌+◌, ◌*◌, ◌≤◌, ◌<◌, ◌≡◌, refl, sym, ap, ◌∙◌, ◌⊎◌, Bool, true, false, ◌||◌, List, [],
  ◌∷◌, ◌++◌, arith, add32, ltb, ◌==◌, ==_iff, inl, inr, contains, length, Result, ok, ◌>>=◌,
}
use eyeq.Kernel.{Kernel}
use eyeq.Params.{Params}
use eyeq.Rl.Tasklet.{
  Limiters, Round, serve_queue, stops, round_on, tasklet_loop, head_of, stamp, rearm, xmit_tasklet,
}
use eyeq.Rl.Tasklet.Waiting.{IsWaiting}
use eyeq.Rl.Tasklet.Runs.{IsTasked, xmit_tasklet-IsTasked}

-- Runs of the tasklet one after the other, the last of which is numbered 0.
unfoldable pub tasklet_runs :
    Kernel → Params → (ℕ → ℕ) → (ℕ → ℕ → Round) → ℕ → ℕ → Limiters → Result Limiters
tasklet_runs K P readings rounds cpu zero t = ok t
tasklet_runs K P readings rounds cpu (suc k) t =
    xmit_tasklet K P (readings k) (rounds k) false cpu t >>= tasklet_runs K P readings rounds cpu k

contains-append :
    (i : ℕ) (xs ys : List ℕ) → contains i (xs ++ ys) ≡ (contains i xs || contains i ys)
contains-append i [] ys = refl
contains-append i (x ∷ xs) ys = ground (arith, contains-append i xs ys)

-- A queue on the list has been served, or has come nearer to the head by the number served.
moved_on :
    (i : ℕ) (before rest log ids : List ℕ)
    → before ++ (i ∷ rest) ≡ log ++ ids
    → (contains i log ≡ true)
      ⊎ ((before' : List ℕ) × (rest' : List ℕ) × (ids ≡ before' ++ (i ∷ rest'))
          × (length before ≡ length log + length before'))
moved_on i before rest [] ids e = inr (before, rest, sym e, omega arith)
moved_on i [] rest (x ∷ log) ids e = inl (ground (arith, e))
moved_on i (y ∷ before) rest (x ∷ log) ids e =
    let tails : before ++ (i ∷ rest) ≡ log ++ ids = cc in
    elim (moved_on i before rest log ids tails) [
      | inl in_log ↦ inl (ground (arith, in_log))
      | inr (before', rest', here, nearer) ↦ inr (before', rest', here, omega (arith, nearer))
    ]

-- The queue at `i` waits with fewer than `k` before it.
abbrev Pending : ℕ → ℕ → List ℕ → Type 0
Pending i k ids =
    (before : List ℕ) × (rest : List ℕ) × (ids ≡ before ++ (i ∷ rest)) × (length before < k)

-- A run serves a queue that waits, or brings it nearer.
nearer :
    (cpu i k : ℕ) (t t' : Limiters)
    → (r : IsTasked cpu t t') → Pending i (suc k) t.cb.active_list
    → (contains i r.log ≡ true) ⊎ Pending i k t'.cb.active_list
nearer cpu i k t t' r (before, rest, e, few) =
    elim (moved_on i before (rest ++ r.added) r.log t'.cb.active_list (
      sym (append_assoc before (i ∷ rest) r.added)
      ∙ ap (λ (xs : List ℕ). xs ++ r.added) (sym e)
      ∙ r.queue)) [
        | inl in_log ↦ inl in_log
        | inr (before', rest', here, len) ↦
            inr (before', rest', here, omega (arith, len, few, some_served before rest e r.head))
      ]
  where
    some_served :
        (before rest : List ℕ)
        → t.cb.active_list ≡ before ++ (i ∷ rest)
        → (t.cb.active_list ≡ []) ⊎ ((j : ℕ) × (later : List ℕ) × (r.log ≡ j ∷ later))
        → 1 ≤ length r.log
    some_served before rest e (inr (j, later, same)) = rw same (omega arith)
    some_served [] rest e (inl none_waits) = absurd (ground (arith, e, none_waits))
    some_served (x ∷ before) rest e (inl none_waits) = absurd (ground (arith, e, none_waits))

-- What runs leave, where the queue at `i` was served before or waits.
runs_reach :
    (K : Kernel) (P : Params) (readings : ℕ → ℕ) (rounds : ℕ → ℕ → Round) (cpu i k : ℕ)
    (before : Bool) (t : Limiters)
    → IsWaiting cpu t
    → (before ≡ true) ⊎ Pending i k t.cb.active_list
    → (t' : Limiters) × (log : List ℕ) × (tasklet_runs K P readings rounds cpu k t ≡ ok t')
      × (t'.served ≡ t.served ++ log)
      × ((before || contains i log) ≡ true)
      × IsWaiting cpu t'
unfolding tasklet_runs
runs_reach K P readings rounds cpu i zero before t v (inl was) =
    (t, [], refl, sym (append-nil t.served), rw was refl, v)
runs_reach K P readings rounds cpu i zero before t v (inr (xs, rest, e, few)) =
    absurd (omega (arith, few))
runs_reach K P readings rounds cpu i (suc k) before t v was =
    let (t1, run, r) = xmit_tasklet-IsTasked K P (readings k) (rounds k) cpu t v in
    let (t', log, runs, served, reached, v') =
      runs_reach K P readings rounds cpu i k (before || contains i r.log) t1 r.waiting
        (now r was) in
    (
      t',
      r.log ++ log,
      rw run runs,
      served ∙ ap (λ (xs : List ℕ). xs ++ log) r.served ∙ append_assoc t.served r.log log,
      ground (arith, reached, contains-append i r.log log),
      v',
    )
  where
    now :
        {t1 : Limiters}
        → (r : IsTasked cpu t t1) → (before ≡ true) ⊎ Pending i (suc k) t.cb.active_list
        → ((before || contains i r.log) ≡ true) ⊎ Pending i k t1.cb.active_list
    now r (inl was) = inl (rw was refl)
    now {t1 = t1} r (inr pending) = elim (nearer cpu i k t t1 r pending) [
      | inl in_log ↦ inl (ground (arith, in_log))
      | inr soon ↦ inr soon
    ]

-- No queue starves: where the queues of a cpu are in order, a queue that waits with fewer than `k`
-- others before it has been served when the tasklet has run `k` times. (The runs follow one another,
-- whatever trylocks fail in them; the module does not exit.)
pub tasklet_runs-serves :
    (K : Kernel) (P : Params) (readings : ℕ → ℕ) (rounds : ℕ → ℕ → Round) (cpu i k : ℕ)
    (before rest : List ℕ) (t : Limiters)
    → IsWaiting cpu t
    → t.cb.active_list ≡ before ++ (i ∷ rest)
    → length before < k
    → (t' : Limiters) × (log : List ℕ) × (tasklet_runs K P readings rounds cpu k t ≡ ok t')
      × (t'.served ≡ t.served ++ log)
      × (contains i log ≡ true)
tasklet_runs-serves K P readings rounds cpu i k before rest t v e few =
    let (t', log, runs, served, reached, v') =
      runs_reach K P readings rounds cpu i k false t v (inr (before, rest, e, few)) in
    (t', log, runs, served, reached)

ltb_zero : (n : ℕ) → ltb n 0 ≡ false
ltb_zero n = ground arith

module _ (K : Kernel) (P : Params) (round : Round) (cpu i j : ℕ) where
  goes_on :
      (t t1 : Limiters) (bytes : ℕ)
      → (j == i) ≡ false
      → serve_queue K P round false cpu i (j ∷ []) t ≡ ok (t1, bytes)
      → round_on K P round false cpu i 0 0 (i ∷ j ∷ []) t ≡ ok (true, add32 0 bytes, t1)
  unfolding round_on stops
  goes_on t t1 bytes apart run = rw (apart, run, ltb_zero (2 * P.min_burst_bytes)) refl

  ends_there :
      (count sent : ℕ) (t : Limiters)
      → round_on K P round false cpu i count sent (j ∷ i ∷ []) t ≡ ok (false, sent, t)
  unfolding round_on stops
  ends_there count sent t = rw ((==_iff i i).1 refl) refl

loop_stops_short :
    (K : Kernel) (P : Params) (rounds : ℕ → Round) (cpu i j fuel : ℕ) (t t1 : Limiters) (bytes : ℕ)
    → (j == i) ≡ false
    → t.cb.active_list ≡ i ∷ j ∷ []
    → serve_queue K P (rounds 0) false cpu i (j ∷ []) t ≡ ok (t1, bytes)
    → t1.cb.active_list ≡ j ∷ i ∷ []
    → tasklet_loop K P rounds false cpu i (suc (suc fuel)) 0 0 t ≡ ok t1
unfolding tasklet_loop
loop_stops_short K P rounds cpu i j fuel t t1 bytes apart e run again =
    rw
      (
        ap (λ (ids : List ℕ). round_on K P (rounds 0) false cpu i 0 0 ids t) e
            ∙ goes_on K P (rounds 0) cpu i j t t1 bytes apart run,
        ap (λ (ids : List ℕ). round_on K P (rounds 2) false cpu i 2 (add32 0 bytes) ids t1) again
            ∙ ends_there K P (rounds 2) cpu i j 2 (add32 0 bytes) t1,
      )
      refl

-- A run ends where the next queue is the one that was first: of two queues, the second is not served
-- if the first waits again behind it, whatever is left of the budget.
pub xmit_tasklet_stops_short :
    (K : Kernel) (P : Params) (n : ℕ) (rounds : ℕ → Round) (cpu i j : ℕ) (t t1 : Limiters)
    (bytes : ℕ)
    → let begin : Limiters = record t { cb = stamp K n t.cb } in
      IsWaiting cpu t
      → t.cb.active_list ≡ i ∷ j ∷ []
      → serve_queue K P (rounds 0) false cpu i (j ∷ []) begin ≡ ok (t1, bytes)
      → t1.cb.active_list ≡ j ∷ i ∷ []
      → xmit_tasklet K P n rounds false cpu t ≡ ok (rearm false t1)
unfolding xmit_tasklet
xmit_tasklet_stops_short K P n rounds cpu i j t t1 bytes v e run again =
    let begin : Limiters = record t { cb = stamp K n t.cb } in
    let (apart, tail) = (rw e at v.listed.distinct) in
    let short =
      loop_stops_short K P rounds cpu i j 249 begin t1 bytes (ground (arith, apart))
        (unfold stamp in e) run again in
    ap (λ (r : Result Limiters). r >>= λ t'. ok (rearm false t'))
      (ap (λ (ids : List ℕ). tasklet_loop K P rounds false cpu (head_of ids) 251 0 0 begin) e
        ∙ short)
