-- ===== src/Rl/Tasklet.antt =====
-- rl.c: `iso_rl_xmit_tasklet`, which serves the queues of one cpu that wait for its timer.
pub mod Armed
pub mod Relisted
pub mod Timed
pub mod Waiting
pub mod Rounds
pub mod Runs
pub mod Turns
pub mod Schedule
pub mod Freed
use eyeq.Common.{
  ℕ, zero, suc, ◌+◌, ◌*◌, ◌%◌, ◌^◌, Bool, true, false, ◌||◌, List, [], ◌∷◌, ◌++◌, ltb, ◌==◌,
  if◌then◌else◌, add32, set_cpu, Result, fault, ok, ◌>>=◌,
}
use eyeq.Common.Int.{to_u64}
use eyeq.Common.Store.{Store, read, write}
use eyeq.Kernel.{Kernel, Skb}
use eyeq.Params.{Params}
use eyeq.Rl.{Rl, RlCb, clock}
use eyeq.Rl.Dequeue.{dequeue_root}
use eyeq.Rl.Relay.{dequeue_child}

-- The limiters of a device and one cpu's control block. `parent` is the address of `rl->txc->rl`
-- where `rl->txc` is set. `wire` lists the packets that were handed to `skb_xmit`, and `served` the
-- limiters whose queue was served, oldest first; the code keeps neither.
pub record Limiters : Type 0 where
  pub rls : Store Rl
  pub parent : ℕ → ℕ
  pub cb : RlCb
  pub wire : List Skb
  pub served : List ℕ

-- What one round of the loop meets: the outcomes of the two trylocks of `iso_rl_dequeue`, and the
-- number of the round's first reading of the time.
pub record Round : Type 0 where
  pub child : Bool
  pub root : Bool
  pub reading : ℕ

-- `list_del_init`: the queue leaves the list.
unfoldable pub unlisted : ℕ → Rl → Rl
unlisted cpu rl = record rl {
  queue = set_cpu rl.queue cpu (record (rl.queue cpu) { active = false });
}

-- `iso_rl_dequeue` on the limiter at `i`, with what it returns.
unfoldable pub serve_root : Params → Round → Bool → ℕ → ℕ → Rl → Limiters → Limiters × ℕ
serve_root P round exiting cpu i rl t =
    let r = dequeue_root P round.root exiting rl cpu t.cb in
    (
      record t {
        rls = write t.rls i r.rl;
        cb = r.cb;
        wire = t.wire ++ r.sent;
        served = t.served ++ (i ∷ []);
      },
      r.sum % 2 ^ 32,
    )

unfoldable pub serve_child :
    Kernel → Params → Round → Bool → ℕ → ℕ → Rl → ℕ → Rl → Limiters → Limiters × ℕ
serve_child K P round exiting cpu i rl p parent t =
    let r = dequeue_child K P round.reading round.child round.root exiting rl parent cpu t.cb in
    (
      record t {
        rls = write (write t.rls p r.parent.rl) i r.rl;
        cb = r.cb;
        wire = t.wire ++ r.parent.sent;
        served = t.served ++ (i ∷ []);
      },
      r.sum % 2 ^ 32,
    )

unfoldable pub serve_any :
    Kernel → Params → Round → Bool → ℕ → ℕ → Rl → Limiters → Result (Limiters × ℕ)
unfolding serve_root serve_child
serve_any K P round exiting cpu i rl t =
    if rl.txc
    then (read t.rls (t.parent i) >>= λ parent.
        ok (serve_child K P round exiting cpu i rl (t.parent i) parent t))
    else ok (serve_root P round exiting cpu i rl t)

-- The body of the loop for the queue at the head of the list, with the rest of the list: it is
-- unlinked, its limiter's clock is brought up to date, and it is served. The clock makes at most two
-- readings of the time.
unfoldable pub serve_queue :
    Kernel → Params → Round → Bool → ℕ → ℕ → List ℕ → Limiters → Result (Limiters × ℕ)
unfolding serve_any unlisted
serve_queue K P round exiting cpu i rest t = read t.rls i >>= λ rl.
    let (rl', n) = clock K P round.reading (unlisted cpu rl) in
    let cb = t.cb in
    serve_any K P (record round { reading = n }) exiting cpu i rl'
      (record t { cb = record cb { active_list = rest } })

-- The loop's test, with the variable `count` before its two increments: `&&` and `||` stop early, but
-- the second increment is lost only where the loop ends. `full` is `qtmp == first`.
unfoldable pub stops : Params → Bool → ℕ → ℕ → Bool
stops P full count sent = full || ltb 500 (count + 1) || ltb (2 * P.min_burst_bytes) sent

-- After a round the loop goes on, if the cursor found an entry before the queue was served.
abbrev pub after_round : Bool → ℕ → Limiters × ℕ → Result (Bool × ℕ × Limiters)
after_round more sent (t, bytes) = ok (more, add32 sent bytes, t)

-- A round, on the list as it stands. The cursor is always its head: what is served leaves the list,
-- and what is added goes to its tail. `list_for_each_entry_safe` takes the next entry, `qtmp`, before
-- the body; past the last entry that is the list's head, which is no queue.
unfoldable pub round_on :
    Kernel
    → Params
    → Round
    → Bool
    → ℕ
    → ℕ
    → ℕ
    → ℕ
    → List ℕ
    → Limiters
    → Result (Bool × ℕ × Limiters)
unfolding serve_queue stops
round_on K P round exiting cpu first count sent [] t = ok (false, sent, t)
round_on K P round exiting cpu first count sent (i ∷ []) t =
    if stops P false count sent
    then ok (false, sent, t)
    else serve_queue K P round exiting cpu i [] t >>= after_round false sent
round_on K P round exiting cpu first count sent (i ∷ j ∷ more) t =
    if stops P (j == first) count sent
    then ok (false, sent, t)
    else serve_queue K P round exiting cpu i (j ∷ more) t >>= after_round true sent

-- The loop, on fuel; it faults where the fuel runs out. `rounds` gives what the round that begins at
-- a count meets.
unfoldable pub tasklet_loop :
    Kernel → Params → (ℕ → Round) → Bool → ℕ → ℕ → ℕ → ℕ → ℕ → Limiters → Result Limiters
unfolding round_on
tasklet_loop K P rounds exiting cpu first zero count sent t = fault
tasklet_loop K P rounds exiting cpu first (suc fuel) count sent t =
    round_on K P (rounds count) exiting cpu first count sent t.cb.active_list t
    >>= λ (more, sent', t'). elim more [
      | true ↦ tasklet_loop K P rounds exiting cpu first fuel (count + 2) sent' t'
      | false ↦ ok t'
    ]

-- `first`: the entry at the head. For an empty list it is no queue, and is not read.
abbrev pub head_of : List ℕ → ℕ
head_of [] = 0
head_of (i ∷ rest) = i

-- The statistics of the time between the runs.
unfoldable pub stamp : Kernel → ℕ → RlCb → RlCb
stamp K n cb = record cb { last = K.ktime n; avg_us = to_u64 (K.us_delta (K.ktime n) cb.last) }

-- The end: the timer is started if a queue waits.
unfoldable pub rearm : Bool → Limiters → Limiters
rearm exiting t =
    let cb = t.cb in
    elim cb.active_list [
      | [] ↦ t
      | i ∷ rest ↦ if exiting then t else record t { cb = record cb { timer = true } }
    ]

-- `iso_rl_xmit_tasklet`. 251 rounds of fuel are enough.
unfoldable pub xmit_tasklet :
    Kernel → Params → ℕ → (ℕ → Round) → Bool → ℕ → Limiters → Result Limiters
unfolding stamp rearm
xmit_tasklet K P n rounds exiting cpu t =
    if exiting
    then ok t
    else (tasklet_loop K P rounds exiting cpu (head_of t.cb.active_list) 251 0 0
          (record t { cb = stamp K n t.cb })
        >>= λ t'. ok (rearm exiting t'))

-- `iso_rl_timeout`: the timer does not restart; the tasklet is scheduled.
abbrev pub rl_timeout : RlCb → RlCb × Bool
rl_timeout cb = (record cb { timer = false }, true)
