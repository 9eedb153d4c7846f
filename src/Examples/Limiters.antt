-- ===== src/Examples/Limiters.antt =====
-- Tests of the limiters, and the theorems about them at concrete inputs.
use eyeq.Common.{ℕ, ◌+◌, ◌*◌, ◌/◌, ◌^◌, ◌≤◌, ◌≡◌, refl, true, false, [], ◌∷◌, arith, min_of, max_of}
use eyeq.Params.{defaults}
use eyeq.Rl.{Rl, RlQueue, RlCb, burst_cap, refill}
use eyeq.Rl.Enqueue.{enqueue_whole, enqueue, mark, enqueue_segments}
use eyeq.Rl.Dequeue.{dequeue_root, replenish, finish, send_queue}
use eyeq.Rl.Clock.{total_tokens-le-burst_cap, refill_tokens, refills, refills_decay}
use eyeq.Rl.Queueing.{
  IsCounted, tail_drop, enqueue_whole_refines, TookPrefix, enqueue_segments_prefix,
}
use eyeq.Rl.Limit.{IsBounded, enqueue-IsBounded}
use eyeq.Rl.Service.{IsServed, dequeue_root-IsServed}
use eyeq.Examples.{packet, short, kernel}

-- A queue of two packets, one of 1000 bytes and one of 500.
abbrev busy : RlQueue
busy = record {
  list = packet ∷ short ∷ [];
  first_pkt_size = 1000;
  bytes_enqueued = 1500;
  bytes_xmit = 0;
  feedback_backlog = 0;
  tokens = 0;
  cpu = 0;
  active = false;
}

abbrev idle : ℕ → RlQueue
idle i = record busy { list = []; bytes_enqueued = 0; cpu = i; first_pkt_size = 0 }

-- A bucket of 1200 tokens, last updated at time 0.
abbrev limiter : Rl
limiter = record {
  id = 5;
  rate = 800;
  ip = 0;
  total_tokens = 1200;
  accum_xmit = 0;
  accum_enqueued = 0;
  last_update_time = 0;
  last_rate_update_time = 0;
  queue = λ i. busy;
  txc = false;
}

abbrev block : RlCb
block = record { active_list = []; timer = false; last = 0; avg_us = 0; cpu = 0; tx_bytes = 0 }

-- The bucket pays for the first packet; the second waits for the timer.
dequeue-limiter :
    let r = dequeue_root defaults true false limiter 0 block in
    (r.sent ≡ packet ∷ [])
    × ((r.rl.queue 0).list ≡ short ∷ [])
    × ((r.rl.queue 0).tokens ≡ 200)
    × (r.cb.active_list ≡ 5 ∷ [])
    × (r.cb.timer ≡ true)
unfolding dequeue_root replenish finish send_queue
dequeue-limiter = (refl, refl, refl, refl, refl)

dequeue_root-IsServed_example :
    IsServed defaults false limiter 0 block (dequeue_root defaults true false limiter 0 block)
dequeue_root-IsServed_example = dequeue_root-IsServed defaults true false limiter 0 block (record {
  counted = refl;
  tokens_fit = omega arith;
  queue_fits = omega arith;
  xmit_fits = omega arith;
  tx_fits = omega arith;
})

enqueue_whole_refines_example :
    let (verdict, q') = enqueue_whole kernel defaults false short busy in
    ((verdict, q'.list)
      ≡ tail_drop defaults.max_queue_len_bytes
          (mark kernel defaults false (1500 + 500))
          short
          busy.list)
    × IsCounted q'
enqueue_whole_refines_example =
    enqueue_whole_refines kernel defaults false short busy refl (omega arith)

enqueue_segments_prefix_example :
    TookPrefix defaults
      (short ∷ short ∷ [])
      busy
      (enqueue_segments defaults (short ∷ short ∷ []) busy)
enqueue_segments_prefix_example =
    enqueue_segments_prefix defaults 500 (omega arith) (short ∷ short ∷ []) busy refl
      (omega arith, (omega arith, tt))

limiter-IsBounded : (i : ℕ) → IsBounded defaults 500 (limiter.queue i)
limiter-IsBounded i = record { counted = refl; bounded = omega arith }

enqueue-IsBounded_example :
    IsBounded defaults 500 ((enqueue kernel defaults 1 limiter packet 0).1.queue 0)
enqueue-IsBounded_example =
    enqueue-IsBounded kernel defaults 500 (omega arith) 1 limiter packet 0 (omega arith)
      (omega arith) (omega arith, (omega arith, tt)) limiter-IsBounded 0

total_tokens-le-burst_cap_example :
    (refill kernel defaults 100 limiter).total_tokens
    ≤ burst_cap defaults (refill kernel defaults 100 limiter).rate
total_tokens-le-burst_cap_example = total_tokens-le-burst_cap kernel defaults 100 limiter

refill_tokens_example :
    let rl' = refill kernel defaults 100 limiter in
    rl'.total_tokens ≡ min_of (burst_cap defaults rl'.rate) (1200 + rl'.rate * 100 / 8)
refill_tokens_example =
    refill_tokens kernel defaults 100 100 limiter refl (omega arith) (omega arith) (omega arith)

refills_decay_example :
    (refills kernel defaults (2000000 ∷ 4000000 ∷ []) limiter).rate ≤ max_of 2 (800 / 2 ^ 2)
refills_decay_example =
    refills_decay kernel defaults (2000000 ∷ 4000000 ∷ []) limiter (omega arith, (omega arith, tt))
