-- ===== src/Examples/Handlers.antt =====
-- The handlers of qdisc.c and the text form of a class at concrete inputs.
use eyeq.Common.{ℕ, ◌≡◌, refl, true, false, [], none, arith, inl, ok}
use eyeq.Class.{class_show, class_parse}
use eyeq.Class.Text.{class_parse-class_show}
use eyeq.Kernel.{Skb}
use eyeq.Params.{defaults}
use eyeq.Tx.Path.{TxDevice, TxLocks}
use eyeq.Qdisc.{Driver, xmit_success, nothing_out, skb_xmit, iso_enqueue}
use eyeq.Qdisc.Laws.{iso_enqueue_unmanaged}
use eyeq.Examples.{packet, kernel}
use eyeq.Examples.Relays.{block}

class_parse-class_show_example : class_parse kernel (class_show kernel 3232235777) ≡ 3232235777
class_parse-class_show_example = class_parse-class_show kernel 3232235777 (omega arith) refl

-- A device without classes.
abbrev bare : TxDevice
bare = record {
  context = record {
    rlcb = λ i. block;
    iso_tx_bucket = λ b. [];
    txc_list = [];
    txcs = λ i. none;
    txc_last_update_time = 0;
    txc_total_weight = 0;
    tx_bytes = 0;
    tx_rate = 0;
    rate = 2;
  };
  pools = λ i. none;
}

abbrev free_locks : TxLocks
free_locks = record { tick = true; state = true; child = true; root = true }

abbrev running : Driver
running = record { attached = true; stopped = λ skb. false }

abbrev arp : Skb
arp = record packet { is_ip = false }

iso_enqueue_unmanaged_example :
    (device' : TxDevice) × (iso_enqueue kernel defaults 1 free_locks false running 0 arp bare
      ≡ ok (record {
        code = xmit_success;
        wire = skb_xmit running arp nothing_out;
        device = device';
      }))
    × ((i : ℕ) → device'.pools i ≡ bare.pools i)
iso_enqueue_unmanaged_example =
    iso_enqueue_unmanaged kernel defaults 1 free_locks false running 0 arp bare
      (record {
        findable = record { listed = tt; buckets = λ b. tt };
        pools = λ i held. absurd (cc (held.1));
      })
      (omega arith) (omega arith) (inl refl)
