-- ===== src/Rl/Relay.antt =====
-- rl.c: `iso_rl_dequeue` for a limiter of one destination (`rl->txc` set). Its packets go to the
-- queue of the class's own limiter on the same cpu, which is then served.
pub mod Handed
pub mod Laws
pub mod Calls
use eyeq.Common.{
  ℕ, ◌*◌, Bool, true, false, ◌&&◌, List, [], ◌∷◌, ◌++◌, leb, if◌then◌else◌, add64, set_cpu,
}
use eyeq.Kernel.{Kernel, Skb}
use eyeq.Params.{Params}
use eyeq.Rl.{Rl, RlQueue, RlCb, skb_size}
use eyeq.Rl.Enqueue.{enqueue, has_space_for}
use eyeq.Rl.Dequeue.{charge, arm, replenish, dequeue_root, Dequeued}

-- The loop's variables, with the parent limiter and the number of the next reading of the time.
-- `moved` lists the packets handed to `iso_rl_enqueue`, oldest first.
pub record Moving : Type 0 where
  pub q : RlQueue
  pub sum : ℕ
  pub timeout : Bool
  pub moved : List Skb
  pub parent : Rl
  pub reading : ℕ

abbrev pub may_move : Params → Skb → Moving → Bool
may_move P pkt s = leb (skb_size pkt) s.q.tokens && leb s.sum (P.min_burst_bytes * 2)

unfoldable pub move : Kernel → Params → ℕ → Skb → List Skb → Moving → Moving
unfolding charge
move K P cpu pkt rest s =
    let (verdict, parent, reading) = enqueue K P s.reading s.parent pkt cpu in
    record s {
      q = charge pkt rest s.q;
      moved = s.moved ++ (pkt ∷ []);
      parent = parent;
      reading = reading;
    }

unfoldable pub peek_next : Skb → Moving → Moving
peek_next pkt s = record s {
  q = record (s.q) { first_pkt_size = skb_size pkt };
  sum = add64 s.sum (skb_size pkt);
}

-- The loop ends by its condition, by a full parent, or on an empty queue.
unfoldable pub move_loop : Kernel → Params → ℕ → Skb → List Skb → Moving → Moving
unfolding move peek_next
move_loop K P cpu pkt [] s =
    if may_move P pkt s
    then if has_space_for P s.parent pkt cpu
      then record (move K P cpu pkt [] s) { timeout = false }
      else s
    else s
move_loop K P cpu pkt (next ∷ rest) s =
    let more = move_loop K P cpu next rest (peek_next next (move K P cpu pkt (next ∷ rest) s)) in
    if may_move P pkt s then if has_space_for P s.parent pkt cpu then more else s else s

unfoldable pub move_queue : Kernel → Params → ℕ → List Skb → Moving → Moving
unfolding move_loop
move_queue K P cpu [] s = s
move_queue K P cpu (pkt ∷ rest) s =
    move_loop K P cpu pkt rest (record (peek_next pkt s) { timeout = true })

pub record Relayed : Type 0 where
  pub rl : Rl
  pub parent : Dequeued
  pub cb : RlCb
  pub sum : ℕ
  pub moved : List Skb

-- The parent is served before the code at `timeout` runs for the child.
unfoldable pub serve : Params → Bool → Bool → Rl → ℕ → RlCb → Moving → Relayed
unfolding arm
serve P parent_locked exiting rl cpu cb s =
    let below = dequeue_root P parent_locked exiting s.parent cpu cb in
    let (q, cb') = arm s.timeout exiting rl.id s.q below.cb in
    record {
      rl = record rl { queue = set_cpu rl.queue cpu q };
      parent = below;
      cb = cb';
      sum = s.sum;
      moved = s.moved;
    }

-- A failed trylock skips the queue and the parent.
unfoldable pub wait_for_tokens : Bool → Rl → ℕ → Rl → RlCb → RlQueue → Relayed
unfolding arm
wait_for_tokens exiting rl cpu parent cb q =
    let (q', cb') = arm true exiting rl.id q cb in
    record {
      rl = record rl { queue = set_cpu rl.queue cpu q' };
      parent = record { rl = parent; cb = cb'; sum = 0; sent = [] };
      cb = cb';
      sum = 0;
      moved = [];
    }

-- `iso_rl_dequeue` where `rl->txc != NULL`; `parent` is `rl->txc->rl`. The two Booleans are the
-- outcomes of the trylocks of the two limiters.
unfoldable pub dequeue_child :
    Kernel → Params → ℕ → Bool → Bool → Bool → Rl → Rl → ℕ → RlCb → Relayed
unfolding serve wait_for_tokens
dequeue_child K P n locked parent_locked exiting rl parent cpu cb =
    let (wait, rl', q) = replenish locked exiting rl (rl.queue cpu) in
    let begin : Moving = record {
      q = q;
      sum = 0;
      timeout = false;
      moved = [];
      parent = parent;
      reading = n;
    } in
    if wait
    then wait_for_tokens exiting rl' cpu parent cb q
    else serve P parent_locked exiting rl' cpu cb (move_queue K P cpu q.list begin)
