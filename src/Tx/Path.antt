-- ===== src/Tx/Path.antt =====
-- tx.c: `iso_tx`, the handler of a packet that is sent.
use eyeq.Common.{
  ℕ, ◌+◌, Bool, false, List, [], Option, none, some, set_cpu, Result, fault, ok, ◌>>=◌,
}
use eyeq.Common.Store.{Store, read, write}
use eyeq.Class.{txc_classify}
use eyeq.Kernel.{Kernel, Skb}
use eyeq.Packet.{enable_ecn}
use eyeq.Params.{Params}
use eyeq.Rl.{Verdict, pass}
use eyeq.Rl.Enqueue.{enqueue}
use eyeq.Rl.Relay.{dequeue_child, Relayed}
use eyeq.Tx.{TxClass, TxContext, tick}
use eyeq.Tx.Classes.{txc_find}
use eyeq.Tx.States.{Ptr, null, entry, list_head, Pool, state_get}

-- What a device keeps for transmission: `pools` has the tables and pools of each class, by the
-- class's address.
pub record TxDevice : Type 0 where
  pub context : TxContext
  pub pools : Store Pool

-- The outcomes of the trylocks, in the order of the code: of `iso_txc_tick`, of `iso_state_get`, and
-- of the two limiters in `iso_rl_dequeue`.
pub record TxLocks : Type 0 where
  pub tick : Bool
  pub state : Bool
  pub child : Bool
  pub root : Bool

-- The verdict, the packet as its header is left, and the packets that were handed to `skb_xmit`,
-- oldest first.
pub record Sent : Type 0 where
  pub verdict : Verdict
  pub skb : Skb
  pub device : TxDevice
  pub wire : List Skb

-- The writes of a call of `iso_rl_dequeue`, back to the class at `c`, its pool and the cpu's block.
unfoldable pub store_relayed : ℕ → ℕ → ℕ → TxClass → Pool → Relayed → TxDevice → TxDevice
store_relayed cpu c j txc pool r device =
    let context = device.context in
    record {
      context = record context {
        rlcb = set_cpu context.rlcb cpu r.cb;
        txcs = write context.txcs c (record txc { rl = r.parent.rl });
      };
      pools = write device.pools c (record pool { rls = write pool.rls j r.rl });
    }

-- From `iso_enable_ecn` to the end, with the limiter at `j`.
unfoldable pub send_through :
    Kernel → Params → ℕ → TxLocks → Bool → ℕ → Skb → ℕ → ℕ → TxClass → Pool → TxDevice → Result Sent
unfolding store_relayed
send_through K P n locks exiting cpu skb c j txc pool device = read pool.rls j >>= λ rl.
    let (verdict, rl', n') = enqueue K P n rl (enable_ecn K skb) cpu in
    let r =
      dequeue_child K P n' locks.child locks.root exiting rl' txc.rl cpu
        (device.context.rlcb cpu) in
    ok (record {
      verdict = verdict;
      skb = enable_ecn K skb;
      device = store_relayed cpu c j txc pool r device;
      wire = r.parent.sent;
    })

-- With the limiter that the state points to.
unfoldable pub send_limiter :
    Kernel
    → Params
    → ℕ
    → TxLocks
    → Bool
    → ℕ
    → Skb
    → ℕ
    → TxClass
    → Pool
    → TxDevice
    → Ptr
    → Result Sent
unfolding send_through
send_limiter K P n locks exiting cpu skb c txc pool device null = fault
send_limiter K P n locks exiting cpu skb c txc pool device list_head = fault
send_limiter K P n locks exiting cpu skb c txc pool device (entry j) =
    send_through K P n locks exiting cpu skb c j txc pool device

-- A packet that is accepted as it is.
abbrev pub passed : Skb → TxDevice → Sent
passed skb device = record { verdict = pass; skb = skb; device = device; wire = [] }

-- With the result of `iso_state_get`; a pointer that is no state is read all the same.
unfoldable pub send_state :
    Kernel
    → Params
    → ℕ
    → TxLocks
    → Bool
    → ℕ
    → Skb
    → ℕ
    → TxClass
    → TxDevice
    → Ptr × Pool
    → Result Sent
unfolding send_limiter
send_state K P n locks exiting cpu skb c txc device (null, pool) =
    ok (passed skb (record device { pools = write device.pools c pool }))
send_state K P n locks exiting cpu skb c txc device (list_head, pool) = fault
send_state K P n locks exiting cpu skb c txc device (entry i, pool) =
    read pool.states i >>= λ st. send_limiter K P n locks exiting cpu skb c txc pool device st.rl

-- With the result of `iso_txc_find`. `iso_state_get` is called with ISO_DONT_CREATE_RL.
unfoldable pub send_class :
    Kernel → Params → ℕ → TxLocks → Bool → ℕ → Skb → TxDevice → Option ℕ → Result Sent
unfolding send_state
send_class K P n locks exiting cpu skb device none = ok (passed skb device)
send_class K P n locks exiting cpu skb device (some c) = do
  txc ← read device.context.txcs c
  pool ← read device.pools c
  found ← state_get K P n skb false false locks.state pool
  send_state K P (n + 3) locks exiting cpu skb c txc device found

-- `iso_tx` on a cpu; `n` is the number of its first reading of the time.
unfoldable pub iso_tx : Kernel → Params → ℕ → TxLocks → Bool → ℕ → Skb → TxDevice → Result Sent
unfolding send_class
iso_tx K P n locks exiting cpu skb device = do
  context ← tick K P (K.ktime n) locks.tick device.context
  found ← txc_find K (txc_classify skb) context
  send_class K P (n + 1) locks exiting cpu skb (record device { context = context }) found
