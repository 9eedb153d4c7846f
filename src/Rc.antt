-- ===== src/Rc.antt =====
-- rc.h and rc.c: the rate controller of one destination, an additive increase with fast recovery
-- and a decrease by the mark that a packet carries.
pub mod Bounds
use eyeq.Common.{
  ℕ, ◌+◌, ◌-◌, ◌*◌, ◌/◌, ◌%◌, ◌^◌, Bool, true, false, ◌&&◌, List, [], ◌∷◌, ltb, leb, ◌==◌,
  if◌then◌else◌, add64, sub64, mul64, min_of, max_of, sum_by, Percpu, set_cpu,
}
use eyeq.Common.Int.{ℤ, pos, to_u64, ltb_ℤ, sub_ℕ}
use eyeq.Kernel.{Kernel, Skb}
use eyeq.Params.{Params, idle_timeout_us, idle_rate}
use eyeq.Packet.{has_feedback}

-- `struct iso_rc_stats`
pub record RcStats : Type 0 where
  pub num_marked : ℕ
  pub num_rx : ℕ

-- `enum iso_rc`
pub data RcMode : Type 0 where
  fast_recovery ai : RcMode

-- `struct iso_rc_state`
pub record RcState : Type 0 where
  pub rfair : ℕ
  pub rfair_target : ℕ
  pub state : RcMode
  pub alpha : ℕ
  pub count : ℕ
  pub stats : Percpu RcStats
  pub last_rfair_change_time : ℕ
  pub last_rfair_decrease_time : ℕ
  pub last_feedback_time : ℕ

no_stats : RcStats
no_stats = record { num_marked = 0; num_rx = 0 }

-- `iso_rc_init`, which reads the time three times.
pub rc_init : Kernel → Params → ℕ → RcState
unfolding no_stats
rc_init K P n = record {
  rfair = P.rfair_initial;
  rfair_target = P.rfair_initial;
  state = ai;
  alpha = 0;
  count = 0;
  stats = λ i. no_stats;
  last_rfair_change_time = K.ktime n;
  last_rfair_decrease_time = K.ktime (n + 1);
  last_feedback_time = K.ktime (n + 2);
}

-- `iso_rc_do_ai`
pub do_ai : Params → RcState → RcState
do_ai P rc = record rc { rfair = min_of P.max_tx_rate (add64 rc.rfair P.rfair_increment) }

-- `iso_rc_do_md`
pub do_md : Params → RcState → RcState
do_md P rc =
    let scale = 2048 * P.falpha in
    record rc { rfair = max_of P.min_rfair (mul64 rc.rfair (sub64 scale rc.alpha) / scale) }

clear_counts : List ℕ → Percpu RcStats → Percpu RcStats
unfolding no_stats
clear_counts [] stats = stats
clear_counts (i ∷ cpus) stats = clear_counts cpus (set_cpu stats i no_stats)

-- `iso_rc_do_alpha`: the fraction of marked packets in 1/1024, smoothed with weight 1/32.
pub do_alpha : Kernel → RcState → RcState
unfolding clear_counts
do_alpha K rc =
    let marked = sum_by (λ i. (rc.stats i).num_marked) K.online % 2 ^ 64 in
    let rx = sum_by (λ i. (rc.stats i).num_rx) K.online % 2 ^ 64 in
    let frac = if rx == 0 then 0 else mul64 1024 marked / rx in
    record rc {
      stats = clear_counts K.online rc.stats;
      alpha = add64 (sub64 (mul64 rc.alpha 32) rc.alpha) frac / 32;
    }

-- A controller that has been idle starts again from the idle rate.
pub restart : Bool → RcState → RcState
restart idle rc =
    if idle && ltb idle_rate rc.rfair
    then record rc { rfair = idle_rate; rfair_target = idle_rate }
    else rc

-- The decrease by a mark: `512 - marked` is an `int` that is converted to `u64`.
pub decrease : Params → ℕ → ℕ → RcState → RcState
decrease P now marked rc = record rc {
  count = 0;
  alpha = marked;
  rfair = max_of P.min_rfair (mul64 rc.rfair (to_u64 (sub_ℕ 512 marked)) / 512);
  last_rfair_decrease_time = now;
  state = fast_recovery;
  rfair_target = rc.rfair;
}

increase_ai : Params → RcState → RcState
unfolding do_ai
increase_ai P rc =
    let up = do_ai P (record rc { state = ai; count = 0 }) in record up { rfair_target = up.rfair }

recover : RcState → RcState
recover rc = record rc { rfair = add64 rc.rfair rc.rfair_target / 2; count = rc.count + 1 }

increase_in : RcMode → Params → RcState → RcState
increase_in fast_recovery P rc = if ltb rc.count 5 then recover rc else increase_ai P rc
increase_in ai P rc = increase_ai P rc

-- The increase: fast recovery for five rounds, then additive.
pub increase : Params → RcState → RcState
increase P rc = increase_in rc.state P rc

pub count_rx : Bool → ℕ → RcState → RcState
count_rx marked cpu rc =
    let st = rc.stats cpu in
    record rc {
      stats = set_cpu rc.stats cpu (record st {
        num_rx = add64 st.num_rx 1;
        num_marked = if marked then add64 st.num_marked 1 else st.num_marked;
      });
    }

-- The two critical sections, with the second test of the time; then the code at `changed`.
pub marked_section : Kernel → Params → ℕ → ℕ → RcState → RcState
marked_section K P now marked rc =
    let idle = ltb_ℤ (pos idle_timeout_us) (K.us_delta now rc.last_rfair_change_time) in
    if ltb (to_u64 (K.us_delta now rc.last_rfair_decrease_time)) P.rfair_decrease_interval_us
    then rc
    else decrease P now marked (restart idle rc)

pub unmarked_section : Kernel → Params → ℕ → RcState → RcState
unmarked_section K P now rc =
    let dt = to_u64 (K.us_delta now rc.last_rfair_change_time) in
    if ltb dt P.rfair_increase_interval_us
    then rc
    else increase P (restart (ltb idle_timeout_us dt) rc)

section : Kernel → Params → ℕ → ℕ → RcState → RcState
section K P now marked rc =
    if marked == 0 then unmarked_section K P now rc else marked_section K P now marked rc

-- `iso_rc_rx` at a time, with the outcome of the trylock; the Boolean is the returned `changed`.
pub rc_rx : Kernel → Params → ℕ → Bool → ℕ → Skb → RcState → Bool × RcState
rc_rx K P now locked cpu skb rc =
    let marked = has_feedback P skb in
    let counted = count_rx (if marked == 0 then false else true) cpu rc in
    let last = if marked == 0 then rc.last_rfair_change_time else rc.last_rfair_decrease_time in
    let interval =
      if marked == 0 then P.rfair_increase_interval_us else P.rfair_decrease_interval_us in
    if ltb interval (to_u64 (K.us_delta now last)) && locked
    then (true, record (section K P now marked counted) { last_rfair_change_time = now })
    else (false, counted)
