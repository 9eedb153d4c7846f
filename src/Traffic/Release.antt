-- ===== src/Traffic/Release.antt =====
-- What traffic leads to can be released: `iso_txc_free` on a device in use.
use eyeq.Common.{ℕ, ◌≡◌, refl, true, none, some, ◌==◌, ==_iff, ok}
use eyeq.Common.Store.{Store, free}
use eyeq.Kernel.{Kernel}
use eyeq.Params.{Params}
use eyeq.Rx.Handler.{Device}
use eyeq.Rx.Sound.{IsSound}
use eyeq.Tx.Path.{TxDevice}
use eyeq.Config.{release}
use eyeq.Tx.{TxClass}
use eyeq.Tx.Free.{free_pool, txc_free}
use eyeq.Tx.Free.Pools.{free_pool-empties}
use eyeq.Vq.{Vq}
use eyeq.Traffic.{Reach, IsTunable, Reach-IsSound}
use eyeq.Tx.States.{Pool}

-- Where no object is left after it, `iso_txc_free` is complete.
abbrev pub Released : ℕ → Device → Store Vq → Type 0
Released c u vqs =
    (pool : Pool) × (pool' : Pool) × (u.tx.pools c ≡ some pool)
    × (free_pool pool ≡ ok pool')
    × ((i : ℕ) → pool'.rls i ≡ none)
    × ((i : ℕ) → pool'.states i ≡ none)
    × ((tx : TxDevice) × (vqs' : Store Vq) × (txc_free c u.tx vqs ≡ ok (tx, vqs'))
        × (tx.context.txcs c ≡ none)
        × (tx.pools c ≡ none))

-- In every state that traffic and the allocator lead to from a sound device, `iso_txc_free` of a class
-- returns and leaves neither the class nor one of the states and limiters that were allocated for it,
-- and releases none of them twice, where the queue that the class points to is allocated. (The
-- parameters are in range; classes and queues are not deleted meanwhile.)
pub Reach-IsReleased :
    {K : Kernel} {P : Params} {s u : Device} (c : ℕ) (txc : TxClass) (vqs vqs' : Store Vq)
    → IsTunable P
    → IsSound P s
    → Reach K P s u
    → u.tx.context.txcs c ≡ some txc
    → release txc.vq vqs ≡ ok vqs'
    → Released c u vqs
unfolding txc_free
Reach-IsReleased {u = u} c txc vqs vqs' p v reached here released =
    let w = Reach-IsSound p v reached in
    let (pool, there, complete) = w.sending.pools c (txc, here) in
    let (pool', run, no_rls, no_states) = free_pool-empties pool complete.tidy in
    let context = u.tx.context in
    let left : TxDevice = record {
      context = record context { txcs = free context.txcs c };
      pools = free u.tx.pools c;
    } in
    let gone : (c == c) ≡ true = (==_iff c c).1 refl in
    (
      pool,
      pool',
      there,
      run,
      no_rls,
      no_states,
      (left, vqs', rw (here, there, run, released) refl, rw gone refl, rw gone refl),
    )
