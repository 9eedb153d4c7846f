-- ===== src/Rl/Tasklet/Freed.antt =====
-- A limiter that is released while one of its queues waits: `iso_rl_free` does not take the queue off
-- the list.
use eyeq.Common.{
  ℕ, zero, suc, ◌*◌, ◌≡◌, refl, sym, ap, ◌∙◌, true, false, List, [], ◌∷◌, arith, ltb, ◌==◌, ==_iff,
  none, Distinct, fault, ok, ok-inj, >>=-eq-ok,
}
use eyeq.Common.Store.{Store, read, free}
use eyeq.Kernel.{Kernel}
use eyeq.Params.{Params}
use eyeq.Rl.{Rl}
use eyeq.Rl.Tasklet.{
  Limiters, Round, serve_queue, stops, round_on, tasklet_loop, head_of, stamp, xmit_tasklet,
}
use eyeq.Tx.Free.{free_at, rl_free}

freed : (i : ℕ) (rls rls' : Store Rl) → rl_free i rls ≡ ok rls' → rls' i ≡ none
unfolding free_at
freed i rls rls' e =
    let (rl, here, done) = >>=-eq-ok (read rls i) (λ rl. ok (free rls i)) e in
    let here : (i == i) ≡ true = (==_iff i i).1 refl in
    ap (λ (s : Store Rl). s i) (sym (ok-inj done)) ∙ (rw here refl)

-- The first round of a run reads the limiter at the head.
first_round_faults :
    (K : Kernel) (P : Params) (round : Round) (cpu first i : ℕ) (rest : List ℕ) (t : Limiters)
    → t.rls i ≡ none
    → first ≡ i
    → Distinct (i ∷ rest)
    → round_on K P round false cpu first 0 0 (i ∷ rest) t ≡ fault
unfolding round_on serve_queue stops
first_round_faults K P round cpu first i [] t gone e d =
    let within : ltb (2 * P.min_burst_bytes) 0 ≡ false = ground arith in rw (gone, within) refl
first_round_faults K P round cpu first i (j ∷ rest) t gone e d =
    let within : ltb (2 * P.min_burst_bytes) 0 ≡ false = ground arith in
    let apart : (j == first) ≡ false = ground (arith, d.0, e) in rw (gone, apart, within) refl

tasklet_loop_faults :
    (K : Kernel) (P : Params) (rounds : ℕ → Round) (cpu first i fuel : ℕ) (rest : List ℕ)
    (t : Limiters)
    → t.rls i ≡ none
    → t.cb.active_list ≡ i ∷ rest
    → first ≡ i
    → Distinct (i ∷ rest)
    → tasklet_loop K P rounds false cpu first fuel 0 0 t ≡ fault
unfolding tasklet_loop
tasklet_loop_faults K P rounds cpu first i zero rest t gone e same d = refl
tasklet_loop_faults K P rounds cpu first i (suc fuel) rest t gone e same d =
    let faults =
      ap (λ ids. round_on K P (rounds 0) false cpu first 0 0 ids t) e
      ∙ first_round_faults K P (rounds 0) cpu first i rest t gone same d in
    rw faults refl

-- After the limiter of the first queue that waits is released, the next run of the tasklet reads freed
-- memory. (The waiting queues are distinct, and the module does not exit.)
pub rl_free_dangles :
    (K : Kernel) (P : Params) (n : ℕ) (rounds : ℕ → Round) (cpu i : ℕ) (rest : List ℕ)
    (t : Limiters) (rls' : Store Rl)
    → t.cb.active_list ≡ i ∷ rest
    → Distinct (i ∷ rest)
    → rl_free i t.rls ≡ ok rls'
    → xmit_tasklet K P n rounds false cpu (record t { rls = rls' }) ≡ fault
unfolding xmit_tasklet stamp
rl_free_dangles K P n rounds cpu i rest t rls' e d released =
    let begin : Limiters = record t { rls = rls'; cb = stamp K n t.cb } in
    let faults =
      tasklet_loop_faults K P rounds cpu (head_of t.cb.active_list) i 251 rest begin
        (freed i t.rls rls' released) e (ap head_of e) d in
    rw faults refl
