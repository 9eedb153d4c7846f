-- ===== src/Rl/Tasklet/Schedule.antt =====
-- The limiters of one cpu over time: packets are queued and served, the timer fires, and the tasklet
-- runs, in any order.
use eyeq.Common.{
  ℕ, ◌≡◌, refl, sym, ap, ◌∙◌, Option-cases, ◌⊎◌, Bool, true, false, none, some, [], inl, inr, arith,
  Result, fault, ok, ok-inj, fault-ne-ok, ◌>>=◌,
}
use mathlib.Core.Path.{subst}
use eyeq.Common.Store.{read}
use eyeq.Kernel.{Kernel, Skb}
use eyeq.Params.{Params}
use eyeq.Rl.{Rl, RlCb, Verdict}
use eyeq.Rl.Enqueue.{enqueue}
use eyeq.Rl.Tasklet.{Limiters, Round, serve_any, xmit_tasklet, rl_timeout}
use eyeq.Rl.Tasklet.Armed.{enqueue-SameListing}
use eyeq.Rl.Tasklet.Timed.{Timed}
use eyeq.Rl.Tasklet.Waiting.{IsWaiting}
use eyeq.Rl.Tasklet.Rounds.{serve_any-IsRound, queued-IsPopped}
use eyeq.Rl.Tasklet.Runs.{xmit_tasklet-IsTasked}

-- The calls that `iso_tx` makes for a packet of the limiter at `i`: `iso_rl_enqueue`, then
-- `iso_rl_dequeue`.
unfoldable pub send :
    Kernel → Params → Round → Bool → ℕ → ℕ → Skb → Limiters → Result (Verdict × Limiters)
send K P round exiting cpu i skb t = read t.rls i >>= λ rl.
    let (verdict, rl', n) = enqueue K P round.reading rl skb cpu in
    serve_any K P (record round { reading = n }) exiting cpu i rl' t >>= λ (t', bytes).
    ok (verdict, t')

-- One cpu: its limiters, and whether its tasklet is scheduled.
pub record Cpu : Type 0 where
  pub limiters : Limiters
  pub scheduled : Bool

abbrev with_timer : RlCb → Limiters → Limiters
with_timer cb t = record t { cb = cb }

-- The events of a cpu. Trylocks may fail and packets may be of any kind.
pub data Step (K : Kernel) (P : Params) (cpu : ℕ) : Cpu → Cpu → Type 0 where
  sending :
      (s : Cpu) (round : Round) (i : ℕ) (skb : Skb) (verdict : Verdict) (t : Limiters)
      → send K P round false cpu i skb s.limiters ≡ ok (verdict, t)
      → Step K P cpu s (record s { limiters = t })
  timer_fires :
      (s : Cpu)
      → s.limiters.cb.timer ≡ true
      → Step K P cpu s (record {
        limiters = with_timer (rl_timeout s.limiters.cb).0 s.limiters;
        scheduled = (rl_timeout s.limiters.cb).1;
      })
  tasklet_runs :
      (s : Cpu) (n : ℕ) (rounds : ℕ → Round) (t : Limiters)
      → s.scheduled ≡ true
      → xmit_tasklet K P n rounds false cpu s.limiters ≡ ok t
      → Step K P cpu s (record { limiters = t; scheduled = false })

pub data Reach (K : Kernel) (P : Params) (cpu : ℕ) (s : Cpu) : Cpu → Type 0 where
  here : Reach K P cpu s s
  next : {t u : Cpu} → Reach K P cpu s t → Step K P cpu t u → Reach K P cpu s u

-- The queues are in order, and if one waits the timer is set or the tasklet is scheduled.
pub record IsLive (cpu : ℕ) (s : Cpu) : Type 0 where
  pub waiting : IsWaiting cpu s.limiters
  pub woken :
      (s.limiters.cb.active_list ≡ []) ⊎ ((s.limiters.cb.timer ≡ true) ⊎ (s.scheduled ≡ true))

send_ok :
    (K : Kernel) (P : Params) (round : Round) (cpu i : ℕ) (skb : Skb) (t : Limiters) (rl : Rl)
    → IsWaiting cpu t
    → t.rls i ≡ some rl
    → (verdict : Verdict) × (t' : Limiters) × (send K P round false cpu i skb t ≡ ok (verdict, t'))
      × IsWaiting cpu t'
      × Timed t.cb t'.cb
unfolding send
send_ok K P round cpu i skb t rl v held =
    let (verdict, rl', n) = enqueue K P round.reading rl skb cpu in
    let s = enqueue-SameListing K P round.reading rl skb cpu in
    let name : rl'.id ≡ i = s.same_id ∙ (rw held at (v.listed.named i)) in
    let (t', bytes, run, r) =
      serve_any-IsRound K P (record round { reading = n }) cpu i rl' t name
        (queued-IsPopped cpu i rl rl' t v held s) in
    (verdict, t', rw (held, run) refl, r.waiting, r.timed)

send-fault :
    (K : Kernel) (P : Params) (round : Round) (cpu i : ℕ) (skb : Skb) (t : Limiters)
    → t.rls i ≡ none
    → send K P round false cpu i skb t ≡ fault
unfolding send
send-fault K P round cpu i skb t gone = rw gone refl

send-IsLive :
    (K : Kernel) (P : Params) (cpu : ℕ) (s : Cpu) (round : Round) (i : ℕ) (skb : Skb)
    (verdict : Verdict) (t : Limiters)
    → send K P round false cpu i skb s.limiters ≡ ok (verdict, t)
    → IsLive cpu s
    → IsLive cpu (record s { limiters = t })
send-IsLive K P cpu s round i skb verdict t run v = elim (Option-cases (s.limiters.rls i)) [
  | inl gone ↦ absurd (fault-ne-ok (sym (send-fault K P round cpu i skb s.limiters gone) ∙ run))
  | inr (rl, held) ↦
      let (verdict', t', run', waiting, timed) =
        send_ok K P round cpu i skb s.limiters rl v.waiting held in
      let same : t' ≡ t = ap (λ (r : Verdict × Limiters). r.1) (ok-inj (sym run' ∙ run)) in
      let live : IsLive cpu (record s { limiters = t' }) = record {
        waiting = waiting;
        woken = ground (arith, timed, v.woken);
      } in
      subst (λ (x : Limiters). IsLive cpu (record s { limiters = x })) same live
]

-- An event keeps a cpu live.
Step-IsLive :
    {K : Kernel} {P : Params} {cpu : ℕ} {s u : Cpu} → Step K P cpu s u → IsLive cpu s → IsLive cpu u
Step-IsLive {K = K} {P = P} {cpu = cpu} (sending s round i skb verdict t run) v =
    send-IsLive K P cpu s round i skb verdict t run v
Step-IsLive (timer_fires s set) v = record {
  waiting = record {
    listed = v.waiting.listed;
    held = v.waiting.held;
    parents = v.waiting.parents;
  };
  woken = inr (inr refl);
}
Step-IsLive {K = K} {P = P} {cpu = cpu} (tasklet_runs s n rounds t scheduled run) v =
    let (t', run', r) = xmit_tasklet-IsTasked K P n rounds cpu s.limiters v.waiting in
    let live : IsLive cpu (record { limiters = t'; scheduled = false }) = record {
      waiting = r.waiting;
      woken = ground (arith, r.timer);
    } in
    subst (λ (x : Limiters). IsLive cpu (record { limiters = x; scheduled = false }))
      (ok-inj (sym run' ∙ run)) live

-- No packet is stranded. From queues that are in order, whatever packets are sent, trylocks fail,
-- timers fire and tasklets run on a cpu, in any order: each limiter's queue that holds packets is
-- marked and stands exactly once on the cpu's list, and then the timer is set or the tasklet is
-- scheduled. (The module does not exit.)
pub Reach-IsLive :
    {K : Kernel} {P : Params} {cpu : ℕ} {s u : Cpu}
    → IsLive cpu s
    → Reach K P cpu s u
    → IsLive cpu u
Reach-IsLive v here = v
Reach-IsLive v (next reached step) = Step-IsLive step (Reach-IsLive v reached)
