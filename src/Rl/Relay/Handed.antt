-- ===== src/Rl/Relay/Handed.antt =====
-- What the class's limiter gets from a destination's: every packet that is taken from the child's queue
-- is given to `iso_rl_enqueue` of the parent.
use mathlib.Core.Path.{subst}
use mathlib.Core.List.{append_assoc, append-nil}
use eyeq.Common.{
  ℕ, ◌≡◌, refl, sym, ap, ◌∙◌, ◌⊎◌, Bool, true, false, List, [], ◌∷◌, ◌++◌, Bool-cases, inl, inr,
  arith,
}
use eyeq.Kernel.{Kernel, Skb}
use eyeq.Params.{Params}
use eyeq.Rl.{Rl, RlQueue, RlCb, borrow_tokens}
use eyeq.Rl.Dequeue.{replenish, dequeue_root}
use eyeq.Rl.Enqueue.{enqueue, has_space_for}
use eyeq.Rl.Relay.{
  Moving, Relayed, may_move, move, peek_next, move_loop, move_queue, serve, wait_for_tokens,
  dequeue_child,
}

module _ (K : Kernel) (P : Params) (cpu : ℕ) where
  -- The parent after it was given a list of packets, and the number of the next reading of the time.
  unfoldable pub enqueue_all : List Skb → ℕ → Rl → Rl × ℕ
  enqueue_all [] n parent = (parent, n)
  enqueue_all (pkt ∷ rest) n parent =
      let (verdict, parent', n') = enqueue K P n parent pkt cpu in enqueue_all rest n' parent'

  -- For each of the packets there was space when it came.
  unfoldable pub HadSpace : List Skb → ℕ → Rl → Type 0
  HadSpace [] n parent = Unit
  HadSpace (pkt ∷ rest) n parent =
      let (verdict, parent', n') = enqueue K P n parent pkt cpu in
      (has_space_for P parent pkt cpu ≡ true) × HadSpace rest n' parent'

  -- The loop's way from `s` to `r`: what it added to the moved packets the parent got, in order.
  record Handing (s r : Moving) : Type 0 where
    added : List Skb
    moved : r.moved ≡ s.moved ++ added
    given : enqueue_all added s.reading s.parent ≡ (r.parent, r.reading)
    space : HadSpace added s.reading s.parent

  nothing_handed : (s : Moving) → Handing s s
  unfolding enqueue_all HadSpace
  nothing_handed s = record {
    added = [];
    moved = sym (append-nil s.moved);
    given = refl;
    space = tt;
  }

  move_loop-Handing :
      (pkt : Skb) (rest : List Skb) (s : Moving) → Handing s (move_loop K P cpu pkt rest s)
  unfolding move_loop move peek_next enqueue_all HadSpace
  move_loop-Handing pkt [] s = elim (Bool-cases (may_move P pkt s)) [
    | inr stop ↦ rw stop (nothing_handed s)
    | inl go ↦ elim (Bool-cases (has_space_for P s.parent pkt cpu)) [
      | inr full ↦ rw (go, full) (nothing_handed s)
      | inl space ↦
          rw (go, space)
            (record { added = pkt ∷ []; moved = refl; given = refl; space = (space, tt) })
    ]
  ]
  move_loop-Handing pkt (next ∷ rest) s = elim (Bool-cases (may_move P pkt s)) [
    | inr stop ↦ rw stop (nothing_handed s)
    | inl go ↦ elim (Bool-cases (has_space_for P s.parent pkt cpu)) [
      | inr full ↦ rw (go, full) (nothing_handed s)
      | inl space ↦
          let h = move_loop-Handing next rest (peek_next next (move K P cpu pkt (next ∷ rest) s)) in
          rw (go, space)
            (record {
              added = pkt ∷ h.added;
              moved = h.moved ∙ append_assoc s.moved (pkt ∷ []) h.added;
              given = h.given;
              space = (space, h.space);
            })
    ]
  ]

  move_queue-Handing : (xs : List Skb) (s : Moving) → Handing s (move_queue K P cpu xs s)
  unfolding move_queue peek_next
  move_queue-Handing [] s = nothing_handed s
  move_queue-Handing (pkt ∷ rest) s =
      let h = move_loop-Handing pkt rest (record (peek_next pkt s) { timeout = true }) in
      record { added = h.added; moved = h.moved; given = h.given; space = h.space }

  -- What a call makes of the parent: it is left alone if the trylock of the child failed; otherwise
  -- it is given the moved packets, in order and each with space, and is then served.
  abbrev pub IsHanded : ℕ → Bool → Bool → Bool → Rl → RlCb → Relayed → Type 0
  IsHanded n locked parent_locked exiting parent cb r =
      ((locked ≡ false) × (r.moved ≡ []) × (r.parent.rl ≡ parent) × (r.parent.sent ≡ []))
      ⊎ (HadSpace r.moved n parent
          × (r.parent
              ≡ dequeue_root P parent_locked exiting (enqueue_all r.moved n parent).0 cpu cb))

  waits :
      (locked exiting : Bool) (rl : Rl) (q : RlQueue)
      → (replenish locked exiting rl q).0 ≡ true
      → locked ≡ false
  unfolding replenish borrow_tokens
  waits locked exiting rl q e = ground (arith, e)

  pub dequeue_child-IsHanded :
      (n : ℕ) (locked parent_locked exiting : Bool) (rl parent : Rl) (cb : RlCb)
      → IsHanded n locked parent_locked exiting parent cb
          (dequeue_child K P n locked parent_locked exiting rl parent cpu cb)
  unfolding dequeue_child
  dequeue_child-IsHanded n locked parent_locked exiting rl parent cb =
      let got = replenish locked exiting rl (rl.queue cpu) in
      elim (Bool-cases got.0) [
        | inl wait ↦ rw wait (
            unfold wait_for_tokens in
            inl (waits locked exiting rl (rl.queue cpu) wait, refl, refl, refl))
        | inr go ↦
            let begin : Moving = record {
              q = got.2;
              sum = 0;
              timeout = false;
              moved = [];
              parent = parent;
              reading = n;
            } in
            let h = move_queue-Handing got.2.list begin in
            let reached : enqueue_all h.added n parent
                ≡ enqueue_all (move_queue K P cpu got.2.list begin).moved n parent =
              ap (λ xs. enqueue_all xs n parent) (sym h.moved) in
            rw go (
              unfold serve in
              inr (
                subst (λ xs. HadSpace xs n parent) (sym h.moved) h.space,
                ap (λ (x : Rl × ℕ). dequeue_root P parent_locked exiting x.0 cpu cb)
                    (sym h.given ∙ reached),
              ))
      ]
