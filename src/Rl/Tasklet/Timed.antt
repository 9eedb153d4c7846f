-- ===== src/Rl/Tasklet/Timed.antt =====
-- A call of `iso_rl_dequeue` puts a queue on the list only with the timer set.
use eyeq.Common.{ℕ, ◌≡◌, refl, ◌⊎◌, Bool, true, false, [], arith, Bool-cases, inl, inr}
use eyeq.Kernel.{Kernel}
use eyeq.Params.{Params}
use eyeq.Rl.{Rl, RlQueue, RlCb}
use eyeq.Rl.Dequeue.{Sending, send_queue, arm, replenish, finish, start, dequeue_root}
use eyeq.Rl.Relay.{Moving, move_queue, serve, wait_for_tokens, dequeue_child}

-- The timer after a call: it is set, or the list and the timer are as before.
abbrev pub Timed : RlCb → RlCb → Type 0
Timed cb cb' = (cb'.timer ≡ true) ⊎ ((cb'.active_list ≡ cb.active_list) × (cb'.timer ≡ cb.timer))

arm-Timed :
    (timeout : Bool) (id : ℕ) (q : RlQueue) (cb : RlCb) → Timed cb (arm timeout false id q cb).1
unfolding arm
arm-Timed true id q cb = inl refl
arm-Timed false id q cb = inr (refl, refl)

Timed-trans : (a b c : RlCb) → Timed a b → Timed b c → Timed a c
Timed-trans a b c x y = ground arith

finish-Timed :
    (cpu : ℕ) (rl : Rl) (cb : RlCb) (s : Sending) → Timed cb (finish false cpu rl cb s).cb
unfolding finish
finish-Timed cpu rl cb s = arm-Timed s.timeout rl.id s.q (record cb { tx_bytes = s.tx_bytes })

pub dequeue_root-Timed :
    (P : Params) (locked : Bool) (rl : Rl) (cpu : ℕ) (cb : RlCb)
    → Timed cb (dequeue_root P locked false rl cpu cb).cb
unfolding dequeue_root
dequeue_root-Timed P locked rl cpu cb =
    let (wait, rl', q) = replenish locked false rl (rl.queue cpu) in
    elim (Bool-cases wait) [
      | inl waits ↦ rw waits (finish-Timed cpu rl' cb (start q cb true))
      | inr goes ↦ rw goes (finish-Timed cpu rl' cb (send_queue P q.list (start q cb false)))
    ]

serve-Timed :
    (P : Params) (locked : Bool) (rl : Rl) (cpu : ℕ) (cb : RlCb) (s : Moving)
    → Timed cb (serve P locked false rl cpu cb s).cb
unfolding serve
serve-Timed P locked rl cpu cb s =
    let below = dequeue_root P locked false s.parent cpu cb in
    Timed-trans cb below.cb (arm s.timeout false rl.id s.q below.cb).1
      (dequeue_root-Timed P locked s.parent cpu cb) (arm-Timed s.timeout rl.id s.q below.cb)

wait-Timed :
    (rl parent : Rl) (cpu : ℕ) (cb : RlCb) (q : RlQueue)
    → Timed cb (wait_for_tokens false rl cpu parent cb q).cb
unfolding wait_for_tokens
wait-Timed rl parent cpu cb q = arm-Timed true rl.id q cb

pub dequeue_child-Timed :
    (K : Kernel) (P : Params) (n : ℕ) (locked parent_locked : Bool) (rl parent : Rl) (cpu : ℕ)
    (cb : RlCb)
    → Timed cb (dequeue_child K P n locked parent_locked false rl parent cpu cb).cb
unfolding dequeue_child
dequeue_child-Timed K P n locked parent_locked rl parent cpu cb =
    let (wait, rl', q) = replenish locked false rl (rl.queue cpu) in
    let begin : Moving = record {
      q = q;
      sum = 0;
      timeout = false;
      moved = [];
      parent = parent;
      reading = n;
    } in
    elim (Bool-cases wait) [
      | inl waits ↦ rw waits (wait-Timed rl' parent cpu cb q)
      | inr goes ↦
          rw goes (serve-Timed P parent_locked rl' cpu cb (move_queue K P cpu q.list begin))
    ]
