-- ===== src/Qdisc/Mq.antt =====
-- qdisc.c: how EyeQ's queueing discipline is put on a device and taken off it (`mq_init`, `mq_destroy`
-- and `mq_attach`), with the parts of tx.c, rx.c and rl.c that set up and release its two contexts.
pub mod Outcomes
use eyeq.Common.{
  ℕ, zero, suc, ◌+◌, ◌-◌, Bool, true, false, ◌&&◌, Option, none, some, if◌then◌else◌, Result, fault,
  ok, ◌>>=◌,
}

-- The kernel's answers: whether there is memory for each object, whether the device has operations,
-- and whether the qdisc of a transmit queue can be created.
pub record Answers : Type 0 where
  pub array : Bool
  pub tx_memory : Bool
  pub rx_memory : Bool
  pub rlcb : Bool
  pub netdev_ops : Bool
  pub stats : Bool
  pub child : ℕ → Bool

-- Who receives a device's packets: EyeQ, or another part of the kernel, such as a bridge.
pub data Owner : Type 0 where
  eyeq_handler other_handler : Owner

-- How many objects of each kind are allocated, and the device's receive handler.
pub record Held : Type 0 where
  pub arrays : ℕ
  pub tx_contexts : ℕ
  pub rx_contexts : ℕ
  pub rlcbs : ℕ
  pub stats : ℕ
  pub children : ℕ
  pub handler : Option Owner

-- What the two contexts have been given: their data of each cpu, and a place on the list of contexts.
-- `kzalloc` gives neither.
pub record Context : Type 0 where
  pub percpu : Bool
  pub listed : Bool

-- `struct mq_sched`. `qdiscs` says how many entries of the array are set; they are its first.
pub record MqSched : Type 0 where
  pub txc : Option Context
  pub rxc : Option Context
  pub qdiscs : Option ℕ

pub data Code : Type 0 where
  done unsupported no_memory : Code

abbrev pub zeroed : Context
zeroed = record { percpu = false; listed = false }

abbrev pub set_up : Context
set_up = record { percpu = true; listed = true }

-- `iso_tx_init`, with `iso_rl_prep` and `iso_tx_hook_init`: whether it succeeds.
unfoldable pub start_tx : Answers → Held → Bool × Context × Held
start_tx a held =
    if a.rlcb
    then (a.netdev_ops, set_up, record held { rlcbs = held.rlcbs + 1 })
    else (false, zeroed, held)

-- `iso_rx_hook_init`: `netdev_rx_handler_register` refuses a device that has a handler.
unfoldable pub rx_hook_init : Held → Bool × Held
rx_hook_init held = elim held.handler [
  | none ↦ (true, record held { handler = some eyeq_handler })
  | some owner ↦ (false, held)
]

-- `iso_rx_init`
unfoldable pub start_rx : Answers → Held → Bool × Context × Held
unfolding rx_hook_init
start_rx a held =
    if a.stats
    then (let (hooked, held') = rx_hook_init (record held { stats = held.stats + 1 }) in
        (hooked, set_up, held'))
    else (false, zeroed, held)

-- `iso_tx_exit` of a context without classes. `iso_rl_exit` reads the data of each cpu, and
-- `list_del_init` the neighbours on the list.
unfoldable pub tx_exit : Context → Held → Result Held
tx_exit context held =
    if context.percpu && context.listed then ok (record held { rlcbs = held.rlcbs - 1 }) else fault

-- `iso_rx_exit` of a context without queues. `netdev_rx_handler_unregister` removes whatever handler
-- the device has, and `free_percpu` takes NULL.
unfoldable pub rx_exit : Context → Held → Result Held
rx_exit context held =
    if context.listed
    then (if context.percpu
        then ok (record held { handler = none; stats = held.stats - 1 })
        else ok (record held { handler = none }))
    else fault

abbrev pub exit_with : (Context → Held → Result Held) → Option Context → Held → Result Held
exit_with leave none held = ok held
exit_with leave (some context) held = leave context held

abbrev pub free_tx : Option Context → Held → Held
free_tx none held = held
free_tx (some context) held = record held { tx_contexts = held.tx_contexts - 1 }

abbrev pub free_rx : Option Context → Held → Held
free_rx none held = held
free_rx (some context) held = record held { rx_contexts = held.rx_contexts - 1 }

abbrev pub destroy_children : Option ℕ → Held → Held
destroy_children none held = held
destroy_children (some created) held = record held {
  children = held.children - created;
  arrays = held.arrays - 1;
}

-- `mq_destroy`
unfoldable pub mq_destroy : MqSched → Held → Result Held
unfolding tx_exit rx_exit
mq_destroy priv held = do
  left ← exit_with tx_exit priv.txc held
  left' ← exit_with rx_exit priv.rxc left
  ok (destroy_children priv.qdiscs (free_rx priv.rxc (free_tx priv.txc left')))

-- The label `err` of `mq_init`.
abbrev pub give_up : MqSched → Held → Result (Code × MqSched × Held)
give_up priv held = mq_destroy priv held >>= λ left. ok (no_memory, priv, left)

-- The loop of `mq_init`, for the last `todo` transmit queues; the first `created` have their qdisc.
unfoldable pub create_children :
    (ℕ → Bool) → ℕ → ℕ → MqSched → Held → Result (Code × MqSched × Held)
create_children child zero created priv held = ok (done, priv, held)
create_children child (suc todo) created priv held =
    let rest =
      create_children child todo (created + 1) (record priv { qdiscs = some (created + 1) })
        (record held { children = held.children + 1 }) in
    if child created then rest else give_up priv held

-- `mq_init` from the call of `iso_rx_init` on.
unfoldable pub init_rx : ℕ → Answers → MqSched → Held → Result (Code × MqSched × Held)
unfolding start_rx create_children
init_rx queues a priv held =
    let (good, context, held') = start_rx a held in
    let priv' : MqSched = record priv { rxc = some context } in
    if good then create_children a.child queues 0 priv' held' else give_up priv' held'

-- `mq_init` from the call of `iso_tx_init` on.
unfoldable pub init_tx : ℕ → Answers → MqSched → Held → Result (Code × MqSched × Held)
unfolding start_tx init_rx
init_tx queues a priv held =
    let (good, context, held') = start_tx a held in
    let priv' : MqSched = record priv { txc = some context } in
    if good then init_rx queues a priv' held' else give_up priv' held'

abbrev pub empty_sched : MqSched
empty_sched = record { txc = none; rxc = none; qdiscs = none }

-- `mq_init` for a device with so many transmit queues; `root` says whether the discipline is to be
-- the device's root.
unfoldable pub mq_init : Bool → ℕ → Answers → Held → Result (Code × MqSched × Held)
unfolding init_tx
mq_init root queues a held =
    if root
    then (if a.array
        then (let with_array : MqSched = record empty_sched { qdiscs = some 0 } in
            let held1 : Held = record held { arrays = held.arrays + 1 } in
            if a.tx_memory
            then (let with_tx : MqSched = record with_array { txc = some zeroed } in
                let held2 : Held = record held1 { tx_contexts = held.tx_contexts + 1 } in
                if a.rx_memory
                then init_tx queues a (record with_tx { rxc = some zeroed })
                    (record held2 { rx_contexts = held.rx_contexts + 1 })
                else give_up with_tx held2)
            else give_up with_array held1)
        else ok (no_memory, empty_sched, held))
    else ok (unsupported, empty_sched, held)

-- `mq_attach`: the qdiscs become those of the device's transmit queues, and the array is freed.
unfoldable pub mq_attach : MqSched → Held → Result (MqSched × Held)
mq_attach priv held = elim priv.qdiscs [
  | none ↦ fault
  | some created ↦ ok (record priv { qdiscs = none }, record held { arrays = held.arrays - 1 })
]
