-- ===== src/Tx/Exit.antt =====
-- tx.c: the classes of a device when it is given up (`iso_tx_exit`).
pub mod Laws
use eyeq.Common.{ℕ, zero, suc, List, [], ◌∷◌, Result, ok, ◌>>=◌}
use eyeq.Common.Store.{Store}
use eyeq.Params.{max_buckets}
use eyeq.Tx.Free.{no_entries, txc_free}
use eyeq.Tx.Path.{TxDevice}
use eyeq.Vq.{Vq}

-- The classes of one bucket.
unfoldable pub free_classes : List ℕ → TxDevice × Store Vq → Result (TxDevice × Store Vq)
free_classes [] s = ok s
free_classes (c ∷ rest) s = txc_free c s.0 s.1 >>= free_classes rest

-- The loop over the buckets from `b` on.
unfoldable pub free_rows : ℕ → ℕ → (ℕ → List ℕ) → TxDevice × Store Vq → Result (TxDevice × Store Vq)
unfolding free_classes
free_rows zero b buckets s = ok s
free_rows (suc left) b buckets s = free_classes (buckets b) s >>= free_rows left (suc b) buckets

-- The loops of `iso_tx_exit`; the queues that the classes point to lose their references.
unfoldable pub exit_classes : TxDevice → Store Vq → Result (TxDevice × Store Vq)
exit_classes device vqs = do
  (left, vqs') ← free_rows max_buckets 0 device.context.iso_tx_bucket (device, vqs)
  let context = left.context
  ok (record left { context = record context { iso_tx_bucket = no_entries } }, vqs')
