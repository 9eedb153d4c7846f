-- ===== src/Rl/Tasklet/Relisted.antt =====
-- What a call of `iso_rl_dequeue` on the limiter of a destination does to the list: first its parent
-- is served, then the limiter itself.
use eyeq.Common.{ℕ, ◌≡◌, refl, ◌∙◌, ◌⊎◌, Bool, true, false, List, [], ◌∷◌, Bool-cases, inl, inr}
use eyeq.Kernel.{Kernel, Skb}
use eyeq.Params.{Params}
use eyeq.Rl.{Rl, RlQueue, RlCb}
use eyeq.Rl.Dequeue.{charge, replenish, dequeue_root}
use eyeq.Rl.Enqueue.{has_space_for}
use eyeq.Rl.Relay.{
  Moving, may_move, move, peek_next, move_loop, move_queue, serve, wait_for_tokens, dequeue_child,
  Relayed,
}
use eyeq.Rl.Tasklet.Armed.{
  Listing, IsArmed, Asks, SameListing, ==_refl, replenish-active, arm-Listing, dequeue_root-IsArmed,
  enqueue-SameListing,
}

-- The loop of a child asks for the timer likewise, and fills its parent.
record Fills (cpu : ℕ) (s s' : Moving) : Type 0 where
  asks : Asks s.q.active s'.timeout s'.q
  parent : SameListing cpu s.parent s'.parent

SameListing-refl : (cpu : ℕ) (rl : Rl) → SameListing cpu rl rl
SameListing-refl cpu rl = record { active = refl; same_id = refl; same_txc = refl }

SameListing-trans :
    {cpu : ℕ} {a b c : Rl} → SameListing cpu a b → SameListing cpu b c → SameListing cpu a c
SameListing-trans x y = record {
  active = y.active ∙ x.active;
  same_id = y.same_id ∙ x.same_id;
  same_txc = y.same_txc ∙ x.same_txc;
}

stopped-Fills : (cpu : ℕ) (s : Moving) → s.timeout ≡ true → Fills cpu s s
stopped-Fills cpu s h = record {
  asks = record { same = refl; waits = inl h };
  parent = SameListing-refl cpu s.parent;
}

step-Fills :
    (cpu : ℕ) (s s1 s' : Moving)
    → Fills cpu s1 s'
    → s1.q.active ≡ s.q.active
    → SameListing cpu s.parent s1.parent
    → Fills cpu s s'
step-Fills cpu s s1 s' f same p = record {
  asks = record { same = f.asks.same ∙ same; waits = f.asks.waits };
  parent = SameListing-trans p f.parent;
}

move_loop-Fills :
    (K : Kernel) (P : Params) (cpu : ℕ) (pkt : Skb) (rest : List Skb) (s : Moving)
    → s.timeout ≡ true
    → Fills cpu s (move_loop K P cpu pkt rest s)
unfolding move_loop
move_loop-Fills K P cpu pkt [] s h = elim (Bool-cases (may_move P pkt s)) [
  | inl go ↦ elim (Bool-cases (has_space_for P s.parent pkt cpu)) [
    | inl space ↦
        rw (go, space)
          (unfold move in
            unfold charge in
            record {
              asks = record { same = refl; waits = inr refl };
              parent = enqueue-SameListing K P s.reading s.parent pkt cpu;
            })
    | inr full ↦ rw (go, full) (stopped-Fills cpu s h)
  ]
  | inr stop ↦ rw stop (stopped-Fills cpu s h)
]
move_loop-Fills K P cpu pkt (next ∷ rest) s h = elim (Bool-cases (may_move P pkt s)) [
  | inl go ↦ elim (Bool-cases (has_space_for P s.parent pkt cpu)) [
    | inl space ↦
        rw (go, space)
          (step-Fills cpu s _ _
            (move_loop-Fills K P cpu next rest (peek_next next (move K P cpu pkt (next ∷ rest) s))
              (unfold move in unfold peek_next in h))
            (unfold move in unfold peek_next in unfold charge in refl)
            (unfold move in unfold peek_next in enqueue-SameListing K P s.reading s.parent pkt cpu))
    | inr full ↦ rw (go, full) (stopped-Fills cpu s h)
  ]
  | inr stop ↦ rw stop (stopped-Fills cpu s h)
]

move_queue-Fills :
    (K : Kernel) (P : Params) (cpu : ℕ) (xs : List Skb) (s : Moving)
    → s.q.list ≡ xs
    → Fills cpu s (move_queue K P cpu xs s)
unfolding move_queue peek_next
move_queue-Fills K P cpu [] s e = record {
  asks = record { same = refl; waits = inr e };
  parent = SameListing-refl cpu s.parent;
}
move_queue-Fills K P cpu (pkt ∷ rest) s e =
    let f = move_loop-Fills K P cpu pkt rest (record (peek_next pkt s) { timeout = true }) refl in
    record { asks = f.asks; parent = f.parent }

-- What a call leaves of a child and of its parent: first the parent is served, then the child.
pub record IsRelisted (rl rl' parent parent' : Rl) (cpu : ℕ) (ids ids' : List ℕ) : Type 0 where
  pub between : List ℕ
  pub root : Listing parent.id (parent.queue cpu).active (parent'.queue cpu).active ids between
  pub root_held :
      ((parent'.queue cpu).list ≡ []) ⊎ ((parent'.queue cpu).active ≡ true) ⊎ (parent' ≡ parent)
  pub root_id : parent'.id ≡ parent.id
  pub root_txc : parent'.txc ≡ parent.txc
  pub child : IsArmed rl rl' cpu between ids'

Relisted : (rl parent : Rl) (cpu : ℕ) (cb : RlCb) (r : Relayed) → Type 0
Relisted rl parent cpu cb r =
    IsRelisted rl r.rl parent r.parent.rl cpu cb.active_list r.cb.active_list

serve-Relisted :
    (P : Params) (locked : Bool) (rl rl' parent : Rl) (cpu : ℕ) (cb : RlCb) (s : Moving)
    → rl'.id ≡ rl.id
    → rl'.txc ≡ rl.txc
    → Asks (rl.queue cpu).active s.timeout s.q
    → SameListing cpu parent s.parent
    → Relisted rl parent cpu cb (serve P locked false rl' cpu cb s)
unfolding Relisted serve
serve-Relisted P locked rl rl' parent cpu cb s e f a p =
    let below = dequeue_root P locked false s.parent cpu cb in
    let d = dequeue_root-IsArmed P locked s.parent cpu cb in
    let (listing, held) = arm-Listing (rl.queue cpu).active s.timeout rl'.id s.q below.cb a in
    record {
      between = below.cb.active_list;
      root = rw (← p.same_id, ← p.active) d.listing;
      root_held = elim d.held [ inl none_left ↦ inl none_left | inr w ↦ inr (inl w) ];
      root_id = d.same_id ∙ p.same_id;
      root_txc = d.same_txc ∙ p.same_txc;
      child = record {
        listing = rw (← e, ==_refl cpu) listing;
        held = rw (==_refl cpu) held;
        same_id = e;
        same_txc = f;
      };
    }

wait-Relisted :
    (rl rl' parent : Rl) (q : RlQueue) (cpu : ℕ) (cb : RlCb)
    → rl'.id ≡ rl.id
    → rl'.txc ≡ rl.txc
    → q.active ≡ (rl.queue cpu).active
    → Relisted rl parent cpu cb (wait_for_tokens false rl' cpu parent cb q)
unfolding Relisted wait_for_tokens
wait-Relisted rl rl' parent q cpu cb e f a =
    let (listing, held) =
      arm-Listing (rl.queue cpu).active true rl'.id q cb (record { same = a; waits = inl refl }) in
    record {
      between = cb.active_list;
      root = inl (refl, refl);
      root_held = inr (inr refl);
      root_id = refl;
      root_txc = refl;
      child = record {
        listing = rw (← e, ==_refl cpu) listing;
        held = rw (==_refl cpu) held;
        same_id = e;
        same_txc = f;
      };
    }

pub dequeue_child-IsRelisted :
    (K : Kernel) (P : Params) (n : ℕ) (locked parent_locked : Bool) (rl parent : Rl) (cpu : ℕ)
    (cb : RlCb)
    → let r = dequeue_child K P n locked parent_locked false rl parent cpu cb in
      IsRelisted rl r.rl parent r.parent.rl cpu cb.active_list r.cb.active_list
unfolding dequeue_child Relisted
dequeue_child-IsRelisted K P n locked parent_locked rl parent cpu cb =
    let (active, same_id, same_txc) = replenish-active locked false rl (rl.queue cpu) in
    let got = replenish locked false rl (rl.queue cpu) in
    let begin : Moving = record {
      q = got.2;
      sum = 0;
      timeout = false;
      moved = [];
      parent = parent;
      reading = n;
    } in
    elim (Bool-cases got.0) [
      | inl wait ↦ rw wait (wait-Relisted rl got.1 parent got.2 cpu cb same_id same_txc active)
      | inr go ↦
          let f = move_queue-Fills K P cpu got.2.list begin refl in
          rw go (
            serve-Relisted P parent_locked rl got.1 parent cpu cb
              (move_queue K P cpu got.2.list begin) same_id same_txc
              (record { same = f.asks.same ∙ active; waits = f.asks.waits }) f.parent)
    ]
