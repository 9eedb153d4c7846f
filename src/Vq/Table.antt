-- ===== src/Vq/Table.antt =====
-- vq.h, vq.c, rx.c and params.c: the virtual queues of a device, which are created, configured and
-- deleted. They live in a store, since deletion frees them.
pub mod Laws
use eyeq.Common.{
  ℕ, ◌+◌, ◌%◌, ◌^◌, Bool, true, false, List, [], ◌∷◌, ◌++◌, Option, none, some, ltb, ◌==◌,
  if◌then◌else◌, Result, fault, ok, ◌>>=◌,
}
use eyeq.Common.Int.{ℤ, pos, negsuc}
use eyeq.Common.Store.{Store, read, write, free, update_at, update_all}
use eyeq.Kernel.{Kernel}
use eyeq.Params.{Params, max_buckets}
use eyeq.Tx.Classes.{Status, done, exists, no_memory, invalid, bucket_of, set_bucket, remove}
use eyeq.Vq.{Vq, vq_init}
use eyeq.Vq.Rates.{share}

-- The table of queues in `struct iso_rx_context`. The lists hold addresses, `vqs` the queues.
pub record VqTable : Type 0 where
  pub vq_list : List ℕ
  pub vq_bucket : ℕ → List ℕ
  pub vqs : Store Vq

-- `iso_vqs_init`
pub vqs_init : VqTable → VqTable
vqs_init table = record table { vq_list = []; vq_bucket = λ b. [] }

-- The loop of `iso_vq_find`.
unfoldable pub find_vq_in : Store Vq → ℕ → List ℕ → Result (Option ℕ)
find_vq_in vqs klass [] = ok none
find_vq_in vqs klass (i ∷ rest) =
    read vqs i >>= λ vq. if vq.klass == klass then ok (some i) else find_vq_in vqs klass rest

-- `iso_vq_find`
unfoldable pub vq_find : Kernel → ℕ → VqTable → Result (Option ℕ)
vq_find K klass table = find_vq_in table.vqs klass (table.vq_bucket (bucket_of K klass))

-- The first loop of `iso_vq_calculate_rates`, before its sum is converted to `u32`.
pub weigh : Store Vq → List ℕ → Result ℕ
weigh vqs [] = ok 0
weigh vqs (i ∷ rest) = do vq ← read vqs i; weight ← weigh vqs rest; ok (vq.weight + weight)

-- `iso_vq_calculate_rates` on the table.
unfoldable pub recalculate : Params → VqTable → Result VqTable
recalculate P table = do
  weight ← weigh table.vqs table.vq_list
  if ltb 0 (weight % 2 ^ 32)
      then (update_all (share P (weight % 2 ^ 32)) table.vq_list table.vqs >>= λ vqs.
          ok (record table { vqs = vqs }))
      else ok table

-- The new queue is put at the tail of the list and at the head of its bucket.
unfoldable pub link_vq : Kernel → ℕ → Vq → VqTable → VqTable
link_vq K i vq table =
    let b = bucket_of K vq.klass in
    record {
      vq_list = table.vq_list ++ (i ∷ []);
      vq_bucket = set_bucket table.vq_bucket b (i ∷ table.vq_bucket b);
      vqs = write table.vqs i vq;
    }

-- `iso_vq_alloc`; `memory` is what `kmalloc` gives, and the statistics can be allocated.
unfoldable pub vq_alloc : Kernel → Params → ℕ → Option ℕ → ℕ → VqTable → Result (Status × VqTable)
vq_alloc K P n none klass table = ok (no_memory, table)
vq_alloc K P n (some i) klass table =
    recalculate P (link_vq K i (vq_init K P n klass) table) >>= λ table'. ok (done, table')

unfoldable pub install_missing :
    Kernel → Params → ℕ → Option ℕ → ℕ → VqTable → Option ℕ → Result (Status × VqTable)
install_missing K P n memory klass table none = vq_alloc K P n memory klass table
install_missing K P n memory klass table (some i) = ok (exists, table)

-- `iso_vq_install`, for a class that is parsed.
unfoldable pub vq_install : Kernel → Params → ℕ → Option ℕ → ℕ → VqTable → Result (Status × VqTable)
vq_install K P n memory klass table =
    vq_find K klass table >>= install_missing K P n memory klass table

-- `iso_vq_free`: a queue with references stays. The bucket is not written.
unfoldable pub vq_free : ℕ → VqTable → Result VqTable
vq_free i table = read table.vqs i >>= λ vq.
    if ltb 0 vq.refcnt
    then ok table
    else ok (record table { vq_list = remove i table.vq_list; vqs = free table.vqs i })

-- The loop of `iso_vqs_exit` over the addresses that it meets.
unfoldable pub free_all : List ℕ → VqTable → Result VqTable
free_all [] table = ok table
free_all (i ∷ rest) table = vq_free i table >>= free_all rest

-- `iso_vqs_exit`
pub vqs_exit : VqTable → Result VqTable
vqs_exit table = free_all table.vq_list table

unfoldable pub delete_found_vq : VqTable → Option ℕ → Result (Status × VqTable)
delete_found_vq table none = ok (invalid, table)
delete_found_vq table (some i) = read table.vqs i >>= λ vq.
    if ltb 0 vq.refcnt then ok (invalid, table) else vq_free i table >>= λ table'. ok (done, table')

-- `iso_sys_delete_vq`, for a device that is enabled and a line that parses; likewise below.
unfoldable pub delete_vq : Kernel → ℕ → VqTable → Result (Status × VqTable)
delete_vq K klass table = vq_find K klass table >>= delete_found_vq table

abbrev pub set_weight : ℕ → Vq → Vq
set_weight w vq = record vq { weight = w }

unfoldable pub reweigh_vq : Params → ℤ → VqTable → Option ℕ → Result (Status × VqTable)
reweigh_vq P weight table none = ok (invalid, table)
reweigh_vq P (negsuc w) table (some i) = ok (invalid, table)
reweigh_vq P (pos w) table (some i) = if ltb 1024 w then ok (invalid, table) else do
  vqs ← update_at (set_weight w) i table.vqs
  table' ← recalculate P (record table { vqs = vqs })
  ok (done, table')

-- `iso_sys_set_vq_weight`
unfoldable pub set_vq_weight : Kernel → Params → ℕ → ℤ → VqTable → Result (Status × VqTable)
set_vq_weight K P klass weight table = vq_find K klass table >>= reweigh_vq P weight table

abbrev pub set_rate : ℕ → Vq → Vq
set_rate r vq = record vq { rate = r; is_static = true }

abbrev pub clear_rate : Vq → Vq
clear_rate vq = record vq { is_static = false }

unfoldable pub rate_vq : Params → ℤ → VqTable → Option ℕ → Result (Status × VqTable)
rate_vq P rate table none = ok (invalid, table)
rate_vq P (negsuc r) table (some i) = ok (invalid, table)
rate_vq P (pos r) table (some i) =
    if ltb P.vq_drain_rate_mbps r
    then ok (invalid, table)
    else if ltb 0 r
    then (update_at (set_rate r) i table.vqs >>= λ vqs. ok (done, record table { vqs = vqs }))
    else do
      vqs ← update_at clear_rate i table.vqs
      table' ← recalculate P (record table { vqs = vqs })
      ok (done, table')

-- `iso_sys_set_vq_rate`
unfoldable pub set_vq_rate : Kernel → Params → ℕ → ℤ → VqTable → Result (Status × VqTable)
set_vq_rate K P klass rate table = vq_find K klass table >>= rate_vq P rate table
