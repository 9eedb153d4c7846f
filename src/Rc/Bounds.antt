-- ===== src/Rc/Bounds.antt =====
-- The rates of a controller stay within their limits, and fast recovery closes the gap.
use native.Mathlib.Nat.{div-le_of_le-mul, mul-le-mul_left, mul_comm, mul_assoc, pow-succ'}
use eyeq.Common.{
  ℕ, zero, suc, ◌+◌, ◌-◌, ◌*◌, ◌/◌, ◌^◌, ◌≤◌, ◌<◌, ◌≡◌, refl, ◌∙◌, Bool, true, false, arith, ltb,
  ◌==◌, if◌then◌else◌, mul64, mul64_exact,
}
use eyeq.Common.Int.{pos, to_u64, sub_ℕ, ltb_ℤ}
use eyeq.Kernel.{Kernel, Skb}
use eyeq.Params.{Params, idle_rate, idle_timeout_us}
use eyeq.Packet.{has_feedback}
use eyeq.Rc.{
  RcState, RcMode, fast_recovery, ai, do_ai, restart, decrease, increase, increase_in, increase_ai,
  recover, count_rx, marked_section, unmarked_section, section, rc_rx,
}

-- Both rates lie between the least and the greatest rate.
pub record IsBounded (P : Params) (rc : RcState) : Type 0 where
  pub least : P.min_rfair ≤ rc.rfair
  pub most : rc.rfair ≤ P.max_tx_rate
  pub target_least : P.min_rfair ≤ rc.rfair_target
  pub target_most : rc.rfair_target ≤ P.max_tx_rate

-- The parameters are in order: the idle rate is not below the least rate, and rates are words.
pub record IsSane (P : Params) : Type 0 where
  pub ordered : P.min_rfair ≤ P.max_tx_rate
  pub idle : P.min_rfair ≤ idle_rate
  pub words : P.max_tx_rate + P.rfair_increment < 2 ^ 31

restart-IsBounded :
    (P : Params) (idle : Bool) (rc : RcState)
    → IsSane P
    → IsBounded P rc
    → IsBounded P (restart idle rc)
unfolding restart
restart-IsBounded P idle rc p v = ground arith

cut-le : (x m : ℕ) → x < 2 ^ 31 → m ≤ 512 → mul64 x (to_u64 (sub_ℕ 512 m)) / 512 ≤ x
cut-le x m h g =
    let factor : to_u64 (sub_ℕ 512 m) ≡ 512 - m = ground arith in
    let less : 512 - m ≤ 512 = omega arith in
    rw (factor, mul64_exact x (512 - m) (omega arith) (omega arith))
      (div-le_of_le-mul 512 (rw (mul_comm 512 x) (mul-le-mul_left x less)))

decrease-IsBounded :
    (P : Params) (now marked : ℕ) (rc : RcState)
    → IsSane P
    → marked ≤ 512
    → IsBounded P rc
    → IsBounded P (decrease P now marked rc)
unfolding decrease
decrease-IsBounded P now marked rc p m v =
    ground (arith, cut-le rc.rfair marked (omega (arith, p.words, v.most)) m, p.ordered, v.most)

increase-IsBounded :
    (P : Params) (mode : RcMode) (rc : RcState)
    → IsSane P
    → IsBounded P rc
    → IsBounded P (increase_in mode P rc)
unfolding increase_in increase_ai recover do_ai
increase-IsBounded P fast_recovery rc p v = ground arith
increase-IsBounded P ai rc p v = ground arith

section-IsBounded :
    (K : Kernel) (P : Params) (now marked : ℕ) (rc : RcState)
    → IsSane P
    → marked ≤ 512
    → IsBounded P rc
    → IsBounded P (section K P now marked rc)
unfolding section marked_section unmarked_section increase
section-IsBounded K P now marked rc p m v =
    let down = λ (idle : Bool).
      decrease-IsBounded P now marked (restart idle rc) p m (restart-IsBounded P idle rc p v) in
    let up = λ (idle : Bool).
      increase-IsBounded P (restart idle rc).state (restart idle rc) p
        (restart-IsBounded P idle rc p v) in
    ground (
      arith,
      down (ltb_ℤ (pos idle_timeout_us) (K.us_delta now rc.last_rfair_change_time)),
      up (ltb idle_timeout_us (to_u64 (K.us_delta now rc.last_rfair_change_time))),
    )

-- Every call of `iso_rc_rx` with a mark of at most 512 keeps both rates between the least and the
-- greatest rate. (The parameters are in order, as `IsSane` says.)
pub rc_rx-IsBounded :
    (K : Kernel) (P : Params) (now : ℕ) (locked : Bool) (cpu : ℕ) (skb : Skb) (rc : RcState)
    → IsSane P
    → has_feedback P skb ≤ 512
    → IsBounded P rc
    → IsBounded P (rc_rx K P now locked cpu skb rc).1
unfolding rc_rx
rc_rx-IsBounded K P now locked cpu skb rc p m v =
    let counted = count_rx (if has_feedback P skb == 0 then false else true) cpu rc in
    let same : IsBounded P counted =
      unfold count_rx in
      record {
        least = v.least;
        most = v.most;
        target_least = v.target_least;
        target_most = v.target_most;
      } in
    ground (arith, same, section-IsBounded K P now (has_feedback P skb) counted p m same)

-- One round of fast recovery halves the gap to the target, rounding up.
recover_gap :
    (rc : RcState)
    → rc.rfair ≤ rc.rfair_target
    → rc.rfair_target < 2 ^ 31
    → let rc' = recover rc in
      (rc'.rfair ≤ rc'.rfair_target)
      × (rc'.rfair_target ≡ rc.rfair_target)
      × (2 * (rc.rfair_target - rc'.rfair) ≤ rc.rfair_target - rc.rfair + 1)
unfolding recover
recover_gap rc h s = omega arith

increase_recovers :
    (P : Params) (rc : RcState)
    → rc.state ≡ fast_recovery
    → rc.count < 5
    → (increase P rc ≡ recover rc)
      × (((increase P rc).state ≡ fast_recovery) × ((increase P rc).count ≡ rc.count + 1))
unfolding increase increase_in recover
increase_recovers P rc e h = ground arith

increase_gap :
    (P : Params) (rc : RcState)
    → rc.state ≡ fast_recovery
    → rc.count < 5
    → rc.rfair ≤ rc.rfair_target
    → rc.rfair_target < 2 ^ 31
    → let rc' = increase P rc in
      (rc'.rfair ≤ rc'.rfair_target)
      × (rc'.rfair_target ≡ rc.rfair_target)
      × (2 * (rc'.rfair_target - rc'.rfair) ≤ rc.rfair_target - rc.rfair + 1)
increase_gap P rc e c h s =
    let is_recover = (increase_recovers P rc e c).0 in
    let (below, same, gap) = recover_gap rc h s in rw is_recover (below, same, rw same gap)

-- One halving more, in numbers: `p` is the power for the rounds that follow.
double_gap :
    (p target target' last gap1 gap0 : ℕ)
    → target' ≡ target
    → 2 * gap1 ≤ gap0 + 1
    → p * (target' - last) + 1 ≤ gap1 + p
    → 2 * p * (target - last) + 1 ≤ gap0 + 2 * p
double_gap p target target' last gap1 gap0 e h g =
    let g' : p * (target - last) + 1 ≤ gap1 + p = rw e at g in
    omega (arith, mul_assoc 2 p (target - last))

-- Rounds of increase with no restart in between.
pub rounds : ℕ → Params → RcState → RcState
rounds zero P rc = rc
rounds (suc n) P rc = rounds n P (increase P rc)

-- In fast recovery, n rounds of increase (as many as are left of five) bring the rate back towards
-- its target: it never passes the target, which stays, and n rounds leave at most a 2^n-th of the
-- gap, rounded up. (The rate starts at most at the target, which is below 2^31.)
pub rounds_recover :
    (n : ℕ) (P : Params) (rc : RcState)
    → rc.state ≡ fast_recovery
    → rc.count + n ≤ 5
    → rc.rfair ≤ rc.rfair_target
    → rc.rfair_target < 2 ^ 31
    → let rc' = rounds n P rc in
      (rc'.rfair ≤ rc.rfair_target)
      × (rc'.rfair_target ≡ rc.rfair_target)
      × (2 ^ n * (rc.rfair_target - rc'.rfair) + 1 ≤ rc.rfair_target - rc.rfair + 2 ^ n)
unfolding rounds
rounds_recover zero P rc e c h s = (h, refl, omega arith)
rounds_recover (suc n) P rc e c h s =
    let (below, same, gap) = increase_gap P rc e (omega arith) h s in
    let r = increase P rc in
    let (state, count) = (increase_recovers P rc e (omega arith)).1 in
    let (below', same', gap') =
      rounds_recover n P r state (omega (arith, count)) below (rw same s) in
    (
      omega (arith, below', same),
      same' ∙ same,
      rw (pow-succ' 2 n) (
          double_gap (2 ^ n) rc.rfair_target r.rfair_target (rounds n P r).rfair
            (r.rfair_target - r.rfair) (rc.rfair_target - rc.rfair) same gap gap'),
    )
