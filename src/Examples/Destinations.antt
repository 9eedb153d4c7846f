-- ===== src/Examples/Destinations.antt =====
-- The states of a class's destinations at concrete inputs.
use eyeq.Common.{Bool, ℕ, ◌≡◌, refl, true, false, [], ◌∷◌, some, none, ok, ◌==◌, if◌then◌else◌}
use eyeq.Common.Store.{Holds}
use eyeq.Params.{defaults}
use eyeq.Rc.{rc_init}
use eyeq.Rl.{Rl, rl_init}
use eyeq.Tx.States.{null, entry, DestState, Pool, scan, state_get, peer, state_hash}
use eyeq.Tx.States.Laws.{state_get_collides}
use eyeq.Tx.States.New.{Calls, state_get_new}
use eyeq.Examples.Traffic.{pool as tidy_pool, pool-IsComplete}
use eyeq.Kernel.{Skb}
use eyeq.Examples.{packet, kernel}

abbrev limiter_of : ℕ → Rl
limiter_of j = rl_init kernel defaults 0 j 0

-- A destination whose hash is that of address 11.
abbrev taken : DestState
taken = record { ip_key = 267; rl = entry 5; tx_rc = rc_init kernel defaults 0 }

abbrev spare : DestState
spare = record { ip_key = 0; rl = null; tx_rc = rc_init kernel defaults 0 }

-- State 2 and limiter 6 are in the pools.
abbrev pool : Pool
pool = record {
  rl_bucket = λ b. if b == 11 then 5 ∷ [] else [];
  state_bucket = λ b. [];
  prealloc_states = 2 ∷ [];
  prealloc_rls = 6 ∷ [];
  freelist_count = 1;
  states = λ i. if i == 1 then some taken else if i == 2 then some spare else none;
  rls = λ j. if j == 5 then some (limiter_of 5) else if j == 6 then some (limiter_of 6) else none;
  scheduled = false;
}

abbrev collision : Pool
collision = record pool { state_bucket = λ b. if b == 11 then 1 ∷ [] else [] }

-- A packet to a destination that has no state.
abbrev first_packet : Skb
first_packet = record packet { daddr = 12 }

missing-12 :
    scan kernel tidy_pool.states 12 (tidy_pool.state_bucket (state_hash kernel 12)) null ≡ ok null
unfolding scan
missing-12 = refl

state_get_new_example :
    (pool' : Pool) × (state_get kernel defaults 1 first_packet false true true tidy_pool
      ≡ ok (entry 2, pool'))
    × ((later : Pool) (m : ℕ) (next : Skb) (direction create locked : Bool)
        → Calls kernel defaults pool' later
        → next.is_ip ≡ true
        → peer kernel direction next ≡ 12
        → state_get kernel defaults m next direction create locked later ≡ ok (entry 2, later))
state_get_new_example =
    state_get_new kernel defaults 1 first_packet false tidy_pool 2 [] pool-IsComplete.valid
      pool-IsComplete.tidy refl missing-12 refl

state_get_collides_example :
    (j : ℕ) × (state_get kernel defaults 1 packet false true true collision
      ≡ ok (entry j, collision))
    × Holds (λ st. (st.ip_key == 11) ≡ false) collision.states j
state_get_collides_example =
    state_get_collides kernel defaults 1 packet false true true collision 1 [] refl refl refl
      ((taken, refl, refl), tt)
