-- ===== src/Examples/Classes.antt =====
-- The transmit classes and the rates of a device at concrete inputs.
use eyeq.Common.{
  ℕ, ◌≤◌, ◌≡◌, refl, true, false, List, [], ◌∷◌, none, some, arith, fault, ok, sum_by, max_of, All,
  ◌==◌, if◌then◌else◌,
}
use eyeq.Common.Store.{Store, Holds, at}
use eyeq.Params.{defaults}
use eyeq.Rl.{rl_init}
use eyeq.Tx.{TxClass, TxContext, recompute_rates, tick_at}
use eyeq.Tx.Classes.{done, install, delete_txc, txc_find, find_in}
use eyeq.Tx.Shares.{IsValid, IsGuaranteed, recompute_rates_fit}
use eyeq.Tx.Lifetime.{delete_txc_dangles, install_new}
use eyeq.Tx.Ticks.{IsTicked, tick_at_lem}
use eyeq.Examples.{kernel}

-- Class 10 of weight 1 at address 1, and class 11 of weight 3, capped, at address 2.
abbrev pub light : TxClass
light = record {
  klass = 10;
  vq = none;
  rl = rl_init kernel defaults 0 1 0;
  weight = 1;
  active = 0;
  tx_rate = 0;
  tx_rate_smooth = 0;
  min_rate = 9800;
  max_rate = 9800;
  is_static = false;
}

abbrev pub heavy : TxClass
heavy = record light { klass = 11; weight = 3; max_rate = 1000; is_static = true }

abbrev pub classes : Store TxClass
classes i = if i == 1 then some light else if i == 2 then some heavy else none

abbrev pub buckets : ℕ → List ℕ
buckets b = if b == 10 then 1 ∷ [] else if b == 11 then 2 ∷ [] else []

abbrev pub device : TxContext
device = record {
  rlcb = λ i. record {
    active_list = [];
    timer = false;
    last = 0;
    avg_us = 0;
    cpu = i;
    tx_bytes = 5000;
  };
  iso_tx_bucket = buckets;
  txc_list = 1 ∷ 2 ∷ [];
  txcs = classes;
  txc_last_update_time = 0;
  txc_total_weight = 4;
  tx_bytes = 4000;
  tx_rate = 0;
  rate = 2;
}

device-IsValid : IsValid device
device-IsValid = record { allocated = ((light, refl), ((heavy, refl), tt)); total = refl }

recompute_rates_fit_example :
    (context' : TxContext) × (recompute_rates defaults device ≡ ok context')
    × IsValid context'
    × (sum_by (at (λ txc. txc.min_rate) context'.txcs) context'.txc_list ≤ 9800)
    × All (Holds (IsGuaranteed defaults 4) context'.txcs) context'.txc_list
recompute_rates_fit_example =
    recompute_rates_fit defaults device device-IsValid (omega arith) (omega arith)
      ((light, refl, omega arith), ((heavy, refl, omega arith), tt))

tick_at_lem_example :
    (context' : TxContext) × (tick_at kernel defaults 300 300 device ≡ ok context')
    × IsValid context'
    × (10 ≤ context'.rate)
    × (context'.rate ≤ max_of 10 9800)
    × All (Holds (IsTicked defaults) context'.txcs) context'.txc_list
tick_at_lem_example =
    tick_at_lem kernel defaults 300 300 device device-IsValid (omega arith) (omega arith)

found-heavy : txc_find kernel 11 device ≡ ok (some 2)
unfolding txc_find find_in
found-heavy = refl

missing-12 : txc_find kernel 12 device ≡ ok none
unfolding txc_find find_in
missing-12 = refl

delete_txc_dangles_example :
    (context' : TxContext) × (delete_txc kernel defaults 11 device ≡ ok (done, context'))
    × (tick_at kernel defaults 600 300 context' ≡ fault)
delete_txc_dangles_example =
    delete_txc_dangles kernel defaults 600 300 11 2 device (1 ∷ []) [] device-IsValid refl
      found-heavy

install_new_example :
    (context' : TxContext) × (install kernel defaults 1 (some 3) 12 device ≡ ok (done, context'))
    × IsValid context'
    × (context'.txc_list ≡ 1 ∷ 2 ∷ 3 ∷ [])
    × (txc_find kernel 12 context' ≡ ok (some 3))
install_new_example = install_new kernel defaults 1 3 12 device device-IsValid refl missing-12
