-- ===== src/Qdisc/Mq/Outcomes.antt =====
-- What `mq_init` leaves behind on each answer of the kernel.
use mathlib.Core.Path.{subst}
use eyeq.Common.{
  ℕ, zero, suc, ◌+◌, ◌-◌, ◌≡◌, refl, sym, ap, ◌∙◌, ◌⊎◌, Bool, true, false, Bool-cases, inl, inr,
  Option, Option-cases, none, some, arith, Result, fault, ok, ◌>>=◌,
}
use eyeq.Qdisc.Mq.{
  Answers, Held, Owner, eyeq_handler, MqSched, Code, done, no_memory, mq_destroy, mq_attach,
  create_children, init_rx, init_tx, start_tx, start_rx, rx_hook_init, mq_init, set_up, zeroed,
  tx_exit, rx_exit,
}

-- The machine after `mq_init`, with so many qdiscs of transmit queues.
taken : ℕ → Held → Held
taken created held = record {
  arrays = held.arrays + 1;
  tx_contexts = held.tx_contexts + 1;
  rx_contexts = held.rx_contexts + 1;
  rlcbs = held.rlcbs + 1;
  stats = held.stats + 1;
  children = held.children + created;
  handler = held.handler;
}

whole : ℕ → MqSched
whole created = record { txc = some set_up; rxc = some set_up; qdiscs = some created }

pub without_handler : Held → Held
without_handler held = record held { handler = none }

add_sub : (a b : ℕ) → a + b - b ≡ a
add_sub a b = omega arith

sub_none : (a : ℕ) → a - 0 ≡ a
sub_none a = omega arith

mq_destroy-whole :
    (created : ℕ) (held : Held)
    → mq_destroy (whole created) (taken created held) ≡ ok (without_handler held)
unfolding whole taken without_handler mq_destroy tx_exit rx_exit
mq_destroy-whole created held =
    rw
      (
        add_sub held.arrays 1,
        add_sub held.tx_contexts 1,
        add_sub held.rx_contexts 1,
        add_sub held.rlcbs 1,
        add_sub held.stats 1,
        add_sub held.children created,
      )
      refl

-- What the loop over the transmit queues leads to: all have a qdisc, or everything is given back.
CreatedOr : ℕ → Held → Result (Code × MqSched × Held) → Type 0
CreatedOr all held r =
    (r ≡ ok (done, whole all, taken all held))
    ⊎ ((priv : MqSched) × (r ≡ ok (no_memory, priv, without_handler held)))

one_more : Held → Held
one_more held = record held { children = held.children + 1 }

one_more-taken :
    (created : ℕ) (held : Held) → taken (created + 1) held ≡ one_more (taken created held)
unfolding taken one_more
one_more-taken created held =
    ap (λ (n : ℕ). record (taken created held) { children = n }) (omega arith)

create_children_lem :
    (child : ℕ → Bool) (todo created all : ℕ) (held : Held)
    → created + todo ≡ all
    → CreatedOr all held (create_children child todo created (whole created) (taken created held))
unfolding create_children CreatedOr whole taken one_more
create_children_lem child zero created all held e =
    let same : created ≡ all = omega (arith, e) in rw same (inl refl)
create_children_lem child (suc todo) created all held e = elim (Bool-cases (child created)) [
  | inl good ↦ rw good (
      subst
        (λ (h : Held).
          CreatedOr all held (create_children child todo (created + 1) (whole (created + 1)) h))
        (one_more-taken created held)
        (create_children_lem child todo (created + 1) all held (omega (arith, e))))
  | inr bad ↦ rw (bad, mq_destroy-whole created held) (inr (whole created, refl))
]

-- The answers that make `mq_init` read what it has not set up.
pub Crashes : Answers → Type 0
Crashes a = (a.rx_memory ≡ false) ⊎ (a.rlcb ≡ false) ⊎ (a.netdev_ops ≡ false) ⊎ (a.stats ≡ false)

-- The ends of `mq_init`: a crash; a discipline that works, and that `mq_destroy` undoes; an error that
-- leaves nothing; and an error that takes another's handler away.
pub IsOutcome : ℕ → Answers → Held → Result (Code × MqSched × Held) → Type 0
IsOutcome queues a held r =
    ((r ≡ fault) × Crashes a)
    ⊎ ((priv : MqSched) × (held' : Held) × (r ≡ ok (done, priv, held'))
        × (held.handler ≡ none)
        × (held'.handler ≡ some eyeq_handler)
        × (held'.children ≡ held.children + queues)
        × (mq_destroy priv held' ≡ ok held)
        × ((mq_attach priv held' >>= λ (attached, held''). mq_destroy attached held'')
            ≡ ok (record held { children = held.children + queues })))
    ⊎ ((priv : MqSched) × (r ≡ ok (no_memory, priv, held)))
    ⊎ ((priv : MqSched) × (owner : Owner) × (held.handler ≡ some owner)
        × (r ≡ ok (no_memory, priv, without_handler held)))

-- With a free handler, the last phase sets the discipline up or gives everything back.
ours : Held → Held
ours held = record held { handler = some eyeq_handler }

without_ours : (held : Held) → held.handler ≡ none → without_handler (ours held) ≡ held
unfolding ours without_handler
without_ours held free = ap (λ (o : Option Owner). record held { handler = o }) (sym free)

-- Once the qdiscs are the device's, they stay there.
attached_destroy :
    (queues : ℕ) (held : Held)
    → held.handler ≡ none
    → (mq_attach (whole queues) (taken queues (ours held)) >>= λ (attached, held').
        mq_destroy attached held')
      ≡ ok (record held { children = held.children + queues })
unfolding whole taken ours mq_attach mq_destroy tx_exit rx_exit
attached_destroy queues held free =
    rw
      (
        add_sub held.arrays 1,
        add_sub held.tx_contexts 1,
        add_sub held.rx_contexts 1,
        add_sub held.rlcbs 1,
        add_sub held.stats 1,
        free,
      )
      refl

CreatedOr-IsOutcome :
    (queues : ℕ) (a : Answers) (held : Held) (r : Result (Code × MqSched × Held))
    → held.handler ≡ none
    → CreatedOr queues (ours held) r
    → IsOutcome queues a held r
unfolding CreatedOr IsOutcome
CreatedOr-IsOutcome queues a held r free (inl all) = inr (
    inl (
      whole queues,
      taken queues (ours held),
      all,
      free,
      unfold taken in unfold ours in refl,
      unfold taken in unfold ours in refl,
      mq_destroy-whole queues (ours held) ∙ ap (λ (h : Held). ok h) (without_ours held free),
      attached_destroy queues held free,
    ))
CreatedOr-IsOutcome queues a held r free (inr (priv, back)) =
    inr
      (inr (inl (priv, back ∙ ap (λ (h : Held). ok (no_memory, priv, h)) (without_ours held free))))

-- Before the phase of the receiving context.
half : MqSched
half = record { txc = some set_up; rxc = some zeroed; qdiscs = some 0 }

half_taken : Held → Held
half_taken held = record held {
  arrays = held.arrays + 1;
  tx_contexts = held.tx_contexts + 1;
  rx_contexts = held.rx_contexts + 1;
  rlcbs = held.rlcbs + 1;
}

init_rx-short :
    (queues : ℕ) (a : Answers) (held : Held)
    → a.stats ≡ false
    → init_rx queues a half (half_taken held) ≡ fault
unfolding init_rx start_rx mq_destroy tx_exit rx_exit half half_taken
init_rx-short queues a held short = rw short refl

taken_none :
    (held : Held) (handler : Option Owner)
    → record (half_taken held) { stats = held.stats + 1; handler = handler }
      ≡ taken 0 (record held { handler = handler })
unfolding taken half_taken
taken_none held handler =
    ap
      (λ (n : ℕ). record (half_taken held) {
        stats = held.stats + 1;
        children = n;
        handler = handler;
      })
      (omega arith)

init_rx-busy :
    (queues : ℕ) (a : Answers) (held : Held) (owner : Owner)
    → a.stats ≡ true
    → held.handler ≡ some owner
    → init_rx queues a half (half_taken held) ≡ ok (no_memory, whole 0, without_handler held)
unfolding init_rx start_rx rx_hook_init half half_taken whole
init_rx-busy queues a held owner enough busy =
    rw
      (
        enough,
        busy,
        taken_none held (some owner),
        mq_destroy-whole 0 (record held { handler = some owner }),
      )
      (unfold without_handler in refl)

init_rx-free :
    (queues : ℕ) (a : Answers) (held : Held)
    → a.stats ≡ true
    → held.handler ≡ none
    → init_rx queues a half (half_taken held)
      ≡ create_children a.child queues 0 (whole 0) (taken 0 (ours held))
unfolding init_rx start_rx rx_hook_init half half_taken whole
init_rx-free queues a held enough free =
    unfold ours in
    rw (enough, free)
      (ap (create_children a.child queues 0 (whole 0)) (taken_none held (some eyeq_handler)))

-- The phase of the receiving context, with the transmitting one set up.
init_rx-IsOutcome :
    (queues : ℕ) (a : Answers) (held : Held)
    → IsOutcome queues a held (init_rx queues a half (half_taken held))
init_rx-IsOutcome queues a held = elim (Bool-cases a.stats) [
  | inr short ↦
      rw (init_rx-short queues a held short)
        (unfold IsOutcome in unfold Crashes in inl (refl, inr (inr (inr short))))
  | inl enough ↦ elim (Option-cases held.handler) [
    | inl free ↦ CreatedOr-IsOutcome queues a held _ free (
        rw (init_rx-free queues a held enough free)
          (create_children_lem a.child queues 0 queues (ours held) (omega arith)))
    | inr (owner, busy) ↦
        unfold IsOutcome in
        inr (inr (inr (whole 0, owner, busy, init_rx-busy queues a held owner enough busy)))
  ]
]

mq_init-both :
    (queues : ℕ) (a : Answers) (held : Held)
    → a.array ≡ true
    → a.tx_memory ≡ true
    → a.rx_memory ≡ true
    → a.rlcb ≡ true
    → a.netdev_ops ≡ true
    → mq_init true queues a held ≡ init_rx queues a half (half_taken held)
unfolding mq_init init_tx start_tx half half_taken
mq_init-both queues a held array tx rx rlcb ops = rw (array, tx, rx, rlcb, ops) refl

-- `mq_init` for a device's root ends in one of four ways. It crashes, and then there is no memory for
-- the receiving context or for the data of each cpu, or the device has no operations. It sets the
-- discipline up, with a qdisc for each transmit queue of a device that had no receive handler; then
-- `mq_destroy` gives everything back, and after `mq_attach` everything but those qdiscs. It reports
-- an error and leaves everything as it was. Or it reports an error for a device that has a receive
-- handler, and leaves the device without.
pub mq_init-IsOutcome :
    (queues : ℕ) (a : Answers) (held : Held) → IsOutcome queues a held (mq_init true queues a held)
unfolding mq_init init_tx start_tx mq_destroy tx_exit rx_exit IsOutcome Crashes half half_taken
mq_init-IsOutcome queues a held = elim (Bool-cases a.array) [
  | inr no_array ↦ rw no_array (inr (inr (inl (_, refl))))
  | inl array ↦ elim (Bool-cases a.tx_memory) [
    | inr no_tx ↦
        rw (array, no_tx, add_sub held.arrays 1, sub_none held.children) (inr (inr (inl (_, refl))))
    | inl tx ↦ elim (Bool-cases a.rx_memory) [
      | inr no_rx ↦ rw (array, tx, no_rx) (inl (refl, inl refl))
      | inl rx ↦ elim (Bool-cases a.rlcb) [
        | inr no_rlcb ↦ rw (array, tx, rx, no_rlcb) (inl (refl, inr (inl refl)))
        | inl rlcb ↦ elim (Bool-cases a.netdev_ops) [
          | inr no_ops ↦ rw (array, tx, rx, rlcb, no_ops) (inl (refl, inr (inr (inl refl))))
          | inl ops ↦
              rw (mq_init-both queues a held array tx rx rlcb ops) (init_rx-IsOutcome queues a held)
        ]
      ]
    ]
  ]
]
