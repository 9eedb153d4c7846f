-- ===== src/Rx/Feedback.antt =====
-- rx.c: the parts of `iso_rx` that apply the feedback of a packet to its sender's limiter and that
-- generate feedback.
pub mod Laws
use eyeq.Common.{
  ℕ, ◌+◌, Bool, true, false, not, ◌&&◌, ◌||◌, Option, none, some, ltb, leb, ◌==◌, if◌then◌else◌,
  add32, set_cpu, Result, fault, ok, ◌>>=◌,
}
use eyeq.Common.Int.{to_u64, pos, ltb_ℤ}
use eyeq.Common.Store.{Store, read, write}
use eyeq.Kernel.{Kernel, Skb}
use eyeq.Params.{Params}
use eyeq.Packet.{has_feedback, is_generated_feedback, generate_feedback}
use eyeq.Rc.{RcState}
use eyeq.Rl.{Rl, Verdict, success, drop, skb_size}
use eyeq.Tx.States.{Ptr, null, entry, list_head, DestState, Pool}
use eyeq.Vq.{Vq, VqStats, over_limits}

-- The limiter's rate becomes the rate that was fed back.
abbrev pub with_rate : ℕ → ℕ → Rl → Rl
with_rate now rate rl = record rl { rate = rate; last_rate_update_time = now }

abbrev pub changed_at : ℕ → DestState → DestState
changed_at now st = record st { tx_rc = record (st.tx_rc) { last_rfair_change_time = now } }

-- The assignments under the controller's lock, to the state at `i` and the limiter that it points
-- to.
unfoldable pub set_limiter : ℕ → ℕ → ℕ → DestState → Ptr → Pool → Result Pool
set_limiter now rate i st null pool = fault
set_limiter now rate i st list_head pool = fault
set_limiter now rate i st (entry j) pool = read pool.rls j >>= λ rl. ok (record pool {
  rls = write pool.rls j (with_rate now rate rl);
  states = write pool.states i (changed_at now st);
})

-- From `skb_has_feedback` to the release of the lock; `locked` is the outcome of the trylock, after
-- which the time is tested again with the same reading.
unfoldable pub apply_feedback : Kernel → Params → ℕ → Bool → Skb → ℕ → Pool → Result Pool
unfolding set_limiter
apply_feedback K P now locked skb i pool = read pool.states i >>= λ st.
    if leb P.vq_drain_rate_mbps P.max_tx_rate && not (has_feedback P skb == 0)
    then if ltb (to_u64 (K.us_delta now st.tx_rc.last_rfair_change_time))
        P.rfair_decrease_interval_us
      then ok pool
      else if locked
      then set_limiter now (has_feedback P skb) i st st.rl pool
      else ok pool
    else ok pool

-- Feedback packets are not for the stack.
unfoldable pub verdict_of : Params → Skb → Verdict
verdict_of P skb = if is_generated_feedback P skb then drop else success

-- The last part of `iso_rx`: `now` and `later` are its two readings of the time, and `allocated`
-- says whether there is memory for a packet. The comparison of the time is unsigned.
unfoldable pub generate_due :
    Kernel → Params → ℕ → ℕ → Bool → Verdict → ℕ → Skb → Vq → Option Skb × Vq
generate_due K P now later allocated drop cpu skb vq = (none, vq)
generate_due K P now later allocated _ cpu skb vq =
    let st = vq.percpu_stats cpu in
    let since = add32 st.rx_since_last_feedback (skb_size skb) in
    let due =
      ltb P.feedback_interval_us (to_u64 (K.us_delta later st.last_feedback_gen_time))
      || leb P.feedback_interval_bytes since in
    let reset = record st {
      last_feedback_gen_time = now;
      rx_since_last_feedback = 0;
      network_marked = 0;
    } in
    if P.iso_auto_generate_feedback == 0
    then (none, vq)
    else if due
    then (
      generate_feedback P allocated (over_limits vq) skb,
      record vq { percpu_stats = set_cpu vq.percpu_stats cpu reset },
    )
    else (
      none,
      record vq {
        percpu_stats = set_cpu vq.percpu_stats cpu (record st { rx_since_last_feedback = since });
      },
    )
