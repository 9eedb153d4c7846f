-- ===== src/Tx/Classes.antt =====
-- tx.h, tx.c, class.h and params.c: looking up, creating, configuring and deleting the transmit
-- classes of a device, with classes told apart by IP address.
use eyeq.Common.{
  ℕ, ◌+◌, ◌-◌, ◌%◌, true, false, List, [], ◌∷◌, ◌++◌, Option, none, some, ltb, ◌==◌, if◌then◌else◌,
  Result, ok, ◌>>=◌,
}
use eyeq.Common.Int.{ℤ, pos, negsuc}
use eyeq.Common.Store.{Store, read, write, free, update_at}
use eyeq.Kernel.{Kernel}
use eyeq.Params.{Params, max_buckets}
use eyeq.Rl.{rl_init}
use eyeq.Tx.{TxClass, TxContext, recompute_rates}

-- What a handler returns: 0, -1 or -EINVAL.
pub data Status : Type 0 where
  done exists no_memory invalid : Status

-- `iso_class_hash` and the mask of `iso_txc_find_bucket`.
abbrev pub bucket_of : Kernel → ℕ → ℕ
bucket_of K klass = K.jhash klass 0xdeadbeef % max_buckets

-- The loop of `iso_txc_find`.
unfoldable pub find_in : Store TxClass → ℕ → List ℕ → Result (Option ℕ)
find_in txcs klass [] = ok none
find_in txcs klass (i ∷ rest) =
    read txcs i >>= λ txc. if txc.klass == klass then ok (some i) else find_in txcs klass rest

-- `iso_txc_find`
unfoldable pub txc_find : Kernel → ℕ → TxContext → Result (Option ℕ)
unfolding find_in
txc_find K klass context = find_in context.txcs klass (context.iso_tx_bucket (bucket_of K klass))

-- `iso_txc_init` and the assignment of the class; `n` is the number of the next reading of the time.
unfoldable pub txc_init : Kernel → Params → ℕ → ℕ → ℕ → TxClass
unfolding rl_init
txc_init K P n address klass = record {
  klass = klass;
  vq = none;
  rl = rl_init K P n address 0;
  weight = 1;
  active = 0;
  tx_rate = 0;
  tx_rate_smooth = 0;
  min_rate = P.max_tx_rate;
  max_rate = P.max_tx_rate;
  is_static = false;
}

abbrev pub set_bucket : (ℕ → List ℕ) → ℕ → List ℕ → ℕ → List ℕ
set_bucket buckets b xs c = if c == b then xs else buckets c

-- The new class is put at the head of its bucket and at the tail of the list.
unfoldable pub link : Kernel → ℕ → TxClass → TxContext → TxContext
link K i txc context =
    let b = bucket_of K txc.klass in
    record context {
      txcs = write context.txcs i txc;
      iso_tx_bucket = set_bucket context.iso_tx_bucket b (i ∷ context.iso_tx_bucket b);
      txc_list = context.txc_list ++ (i ∷ []);
      txc_total_weight = context.txc_total_weight + txc.weight;
    }

-- `iso_txc_alloc`, without the preallocation; `memory` is what `kmalloc` gives.
unfoldable pub txc_alloc :
    Kernel → Params → ℕ → Option ℕ → ℕ → TxContext → Result (Status × TxContext)
unfolding txc_init link
txc_alloc K P n none klass context = ok (no_memory, context)
txc_alloc K P n (some i) klass context =
    recompute_rates P (link K i (txc_init K P n i klass) context) >>= λ context'.
    ok (done, context')

unfoldable pub install_found :
    Kernel → Params → ℕ → Option ℕ → ℕ → TxContext → Option ℕ → Result (Status × TxContext)
unfolding txc_alloc
install_found K P n memory klass context none = txc_alloc K P n memory klass context
install_found K P n memory klass context (some i) = ok (exists, context)

-- `iso_txc_mark_install`
unfoldable pub install :
    Kernel → Params → ℕ → Option ℕ → ℕ → TxContext → Result (Status × TxContext)
unfolding txc_find install_found
install K P n memory klass context =
    txc_find K klass context >>= install_found K P n memory klass context

-- What `set_txc_weight` writes to the class that it found.
unfoldable pub reweigh : Params → ℕ → ℕ → TxContext → Result TxContext
reweigh P i weight context = do
  txc ← read context.txcs i
  recompute_rates P (record context {
    txcs = write context.txcs i (record txc { weight = weight });
    txc_total_weight = context.txc_total_weight - txc.weight + weight;
  })

unfoldable pub set_weight_found : Params → ℤ → TxContext → Option ℕ → Result (Status × TxContext)
unfolding reweigh
set_weight_found P weight context none = ok (invalid, context)
set_weight_found P (negsuc w) context (some i) = ok (invalid, context)
set_weight_found P (pos w) context (some i) =
    if ltb 1024 w
    then ok (invalid, context)
    else reweigh P i w context >>= λ context'. ok (done, context')

-- `iso_sys_set_txc_weight`, for a device that is enabled and a line that parses.
unfoldable pub set_txc_weight : Kernel → Params → ℕ → ℤ → TxContext → Result (Status × TxContext)
unfolding set_weight_found
set_txc_weight K P klass weight context =
    txc_find K klass context >>= set_weight_found P weight context

-- The cap that `set_txc_rate` writes: a rate of 0 removes it.
unfoldable pub cap_rate : Params → ℕ → TxClass → TxClass
cap_rate P rate txc =
    if rate == 0
    then record txc { is_static = false; max_rate = P.max_tx_rate }
    else record txc { is_static = true; max_rate = rate }

unfoldable pub set_rate_found : Params → ℤ → TxContext → Option ℕ → Result (Status × TxContext)
unfolding cap_rate
set_rate_found P rate context none = ok (invalid, context)
set_rate_found P (negsuc r) context (some i) = ok (invalid, context)
set_rate_found P (pos r) context (some i) = if ltb 1024 r then ok (invalid, context) else do
  txcs ← update_at (cap_rate P r) i context.txcs
  context' ← recompute_rates P (record context { txcs = txcs })
  ok (done, context')

-- `iso_sys_set_txc_rate`, likewise.
unfoldable pub set_txc_rate : Kernel → Params → ℕ → ℤ → TxContext → Result (Status × TxContext)
unfolding set_rate_found
set_txc_rate K P klass rate context = txc_find K klass context >>= set_rate_found P rate context

-- `hlist_del`: the entry leaves its bucket.
unfoldable pub remove : ℕ → List ℕ → List ℕ
remove i [] = []
remove i (j ∷ rest) = if j == i then rest else j ∷ remove i rest

-- The deletion of a class: its bucket and the total weight forget it, the rates are computed again,
-- and it is freed. The source has no call that removes it from `txc_list`.
unfoldable pub unlink : Kernel → Params → ℕ → TxContext → Result TxContext
unfolding remove
unlink K P i context = do
  txc ← read context.txcs i
  let b = bucket_of K txc.klass
  context' ← recompute_rates P (record context {
    iso_tx_bucket = set_bucket context.iso_tx_bucket b (remove i (context.iso_tx_bucket b));
    txc_total_weight = context.txc_total_weight - txc.weight;
  })
  ok (record context' { txcs = free context'.txcs i })

unfoldable pub delete_found : Kernel → Params → TxContext → Option ℕ → Result (Status × TxContext)
unfolding unlink
delete_found K P context none = ok (invalid, context)
delete_found K P context (some i) = unlink K P i context >>= λ context'. ok (done, context')

-- `iso_sys_delete_txc`, for a device that is enabled and a line that parses.
unfoldable pub delete_txc : Kernel → Params → ℕ → TxContext → Result (Status × TxContext)
unfolding delete_found
delete_txc K P klass context = txc_find K klass context >>= delete_found K P context
