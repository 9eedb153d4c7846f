-- ===== src/Examples/Traffic.antt =====
-- Traffic on a device with two classes and a virtual queue, at concrete inputs.
use eyeq.Common.{
  gather, ℕ, ◌≡◌, refl, true, false, [], ◌∷◌, none, some, arith, ◌==◌, if◌then◌else◌, Bool-cases,
  inl, inr, ok,
}
use eyeq.Config.{release}
use eyeq.Params.{defaults, max_buckets}
use eyeq.Rc.{rc_init}
use eyeq.Rl.{Rl, rl_init}
use eyeq.Rx.Handler.{Device, RxLocks, with_pool}
use eyeq.Rx.Sound.{IsSound}
use eyeq.Traffic.{Reach, begins, goes_on, allocating, IsTunable}
use eyeq.Traffic.Release.{Released, Reach-IsReleased}
use eyeq.Tx.{TxClass}
use eyeq.Tx.Path.{TxLocks, Sent, iso_tx}
use eyeq.Tx.Sound.{IsSound as IsSoundTx, iso_tx-IsSound}
use eyeq.Tx.States.{null, entry, DestState, Pool, allocator}
use eyeq.Tx.States.Accounted.{IsTidy}
use eyeq.Tx.States.Complete.{IsComplete}
use eyeq.Tx.States.Refill.{IsFresh}
use eyeq.Vq.{Vq}
use eyeq.Examples.{packet, kernel}
use eyeq.Examples.Classes.{light, heavy, device as context}
use eyeq.Examples.Virtual.{queue as queue_of_9}

abbrev pub limiter_of : ℕ → Rl
limiter_of j = rl_init kernel defaults 0 j 11

-- A state that points to limiter 5.
abbrev pub used : DestState
used = record { ip_key = 11; rl = entry 5; tx_rc = rc_init kernel defaults 0 }

abbrev spare : DestState
spare = record used { ip_key = 0; rl = null }

-- State 1 and limiter 5 are in use, state 2 and limiter 6 in the pools.
abbrev pub pool : Pool
pool = record {
  rl_bucket = λ b. if b == 11 then 5 ∷ [] else [];
  state_bucket = λ b. if b == 11 then 1 ∷ [] else [];
  prealloc_states = 2 ∷ [];
  prealloc_rls = 6 ∷ [];
  freelist_count = 1;
  states = λ i. if i == 1 then some used else if i == 2 then some spare else none;
  rls = λ j. if j == 5 then some (limiter_of 5) else if j == 6 then some (limiter_of 6) else none;
  scheduled = true;
}

-- The only bucket that is not empty.
pub gathered : (k : ℕ) → gather max_buckets 0 (λ b. if b == 11 then k ∷ [] else []) ≡ k ∷ []
unfolding gather
gathered k = refl

pool-IsTidy : IsTidy pool
pool-IsTidy = record {
  rls = record {
    once = λ i. rw (gathered 5) (elim (Bool-cases (i == 5)) [
      | inl here ↦ rw here (ground (arith, here))
      | inr other ↦ elim (Bool-cases (i == 6)) [
        | inl last ↦ rw (other, last) refl
        | inr neither ↦ rw (other, neither) refl
      ]
    ]);
  };
  states = record {
    once = λ i. rw (gathered 1) (elim (Bool-cases (i == 1)) [
      | inl here ↦ rw here (ground (arith, here))
      | inr other ↦ elim (Bool-cases (i == 2)) [
        | inl last ↦ rw (other, last) refl
        | inr neither ↦ rw (other, neither) refl
      ]
    ]);
  };
}

pub pool-IsComplete : IsComplete pool
pool-IsComplete = record {
  valid = record {
    states_ok = λ b. elim (Bool-cases (b == 11)) [
      | inl here ↦ rw here ((used, refl), tt)
      | inr other ↦ rw other tt
    ];
    rls_ok = λ b. elim (Bool-cases (b == 11)) [
      | inl here ↦ rw here ((limiter_of 5, refl), tt)
      | inr other ↦ rw other tt
    ];
    free_states = ((spare, refl), tt);
    free_rls = ((limiter_of 6, refl), tt);
    balanced = omega arith;
    counted = refl;
  };
  tidy = pool-IsTidy;
  limited = λ b. elim (Bool-cases (b == 11)) [
    | inl here ↦ rw here ((used, refl, (5, refl, (limiter_of 5, refl))), tt)
    | inr other ↦ rw other tt
  ];
}

abbrev pub queue : Vq
queue = record queue_of_9 { klass = 11; refcnt = 1 }

-- Each class has a pool of its own; the packets of class 11 are received in the queue at 4.
abbrev pub device : Device
device = record {
  context = record {
    stats = λ i. record { rx_bytes = 5000; rx_packets = 5 };
    global_stats = record { rx_bytes = 0; rx_packets = 0 };
    global_stats_last = record { rx_bytes = 0; rx_packets = 0 };
    last_stats_update_time = 0;
    last_rcp_time = 0;
    rcp_rate = 3000;
    rx_rate = 0;
  };
  vqs = record {
    vq_list = 4 ∷ [];
    vq_bucket = λ b. if b == 11 then 4 ∷ [] else [];
    vqs = λ i. if i == 4 then some queue else none;
  };
  tx = record {
    context = context;
    pools = λ c. if c == 1 then some pool else if c == 2 then some pool else none;
  };
}

pub none_there : (x : TxClass) × (none ≡ some x) → ⊥
none_there (x, e) = absurd (cc)

pub device-IsSoundTx : IsSoundTx device.tx
device-IsSoundTx = record {
  findable = record {
    listed = ((light, refl), ((heavy, refl), tt));
    buckets = λ b. elim (Bool-cases (b == 10)) [
      | inl first ↦ rw first ((light, refl), tt)
      | inr other ↦ elim (Bool-cases (b == 11)) [
        | inl second ↦ rw (other, second) ((heavy, refl), tt)
        | inr neither ↦ rw (other, neither) tt
      ]
    ];
  };
  pools = λ i held. elim (Bool-cases (i == 1)) [
    | inl first ↦ rw first (pool, refl, pool-IsComplete)
    | inr other ↦ elim (Bool-cases (i == 2)) [
      | inl second ↦ rw (other, second) (pool, refl, pool-IsComplete)
      | inr neither ↦ absurd (none_there (rw (other, neither) at held))
    ]
  ];
}

pub device-IsSound : IsSound defaults device
device-IsSound = record {
  sending = device-IsSoundTx;
  queues = λ b. elim (Bool-cases (b == 11)) [
    | inl here ↦
        rw here (
          (queue, refl, record { weighs = omega arith; small = omega arith; capped = inl refl }),
          tt,
        )
    | inr other ↦ rw other tt
  ];
  least = omega arith;
  most = omega arith;
}

abbrev tx_free : TxLocks
tx_free = record { tick = true; state = true; child = true; root = true }

abbrev pub rx_free : RxLocks
rx_free = record { stats = true; rcp = true; vq = true; state = true; rc = true; allocated = true }

pub defaults-IsTunable : IsTunable defaults
defaults-IsTunable = record {
  draining = record { some = omega arith; small = omega arith; least = omega arith };
  least = omega arith;
  vq_interval = omega arith;
  txc_interval = omega arith;
  rate = omega arith;
}

iso_tx-IsSound_example :
    (sent : Sent) × (iso_tx kernel defaults 1 tx_free false 0 packet device.tx ≡ ok sent)
    × IsSoundTx sent.device
iso_tx-IsSound_example =
    iso_tx-IsSound kernel defaults 1 tx_free false 0 packet device.tx device-IsSoundTx (omega arith)
      (omega arith)

-- The allocator has put state 3 and limiter 7 into the pools of class 10.
abbrev refilled : Device
refilled = with_pool 1 (allocator kernel defaults 5 ((3, 7) ∷ []) pool) device

device-refilled : Reach kernel defaults device refilled
unfolding IsFresh
device-refilled =
    goes_on begins (allocating device 5 1 pool ((3, 7) ∷ []) (light, refl) refl (refl, refl, tt))

Reach-IsReleased_example : Released 1 refilled refilled.vqs.vqs
unfolding release
Reach-IsReleased_example =
    Reach-IsReleased 1 light refilled.vqs.vqs refilled.vqs.vqs defaults-IsTunable device-IsSound
      device-refilled refl refl
