-- ===== src/Tx/States/Pick.antt =====
-- `iso_pick_rl`: what it takes from the pool of limiters, and what it keeps.
use native.Mathlib.Nat.{mod-lt}
use eyeq.Common.{
  ℕ, suc, ◌≤◌, ◌≡◌, ◌⊎◌, Bool-cases, refl, List, [], ◌∷◌, arith, ◌==◌, ok, length, All, All-map,
  inl, inr,
}
use eyeq.Common.Store.{Store, IsAllocated, write, write-IsAllocated}
use eyeq.Kernel.{Kernel}
use eyeq.Rl.{Rl}
use eyeq.Tx.Classes.{set_bucket}
use eyeq.Tx.States.{
  Ptr, null, entry, list_head, Pool, rl_hash, scan_rls, take_rl, pick_found, pick_rl,
}
use eyeq.Tx.States.Accounted.{IsAccounted, write-IsAccounted, take-IsAccounted}
use eyeq.Tx.States.Laws.{IsValid}

-- What `iso_pick_rl` does to a pool.
pub record IsPicked (pool pool' : Pool) : Type 0 where
  pub states : pool'.states ≡ pool.states
  pub state_bucket : pool'.state_bucket ≡ pool.state_bucket
  pub prealloc_states : pool'.prealloc_states ≡ pool.prealloc_states
  pub freelist_count : pool'.freelist_count ≡ pool.freelist_count
  pub rls_ok : (b : ℕ) → All (IsAllocated pool'.rls) (pool'.rl_bucket b)
  pub free_rls : All (IsAllocated pool'.rls) pool'.prealloc_rls
  pub taken : length pool.prealloc_rls ≤ suc (length pool'.prealloc_rls)
  pub alloc : (j : ℕ) → IsAllocated pool.rls j → IsAllocated pool'.rls j
  pub accounted :
      IsAccounted pool.rl_bucket pool.prealloc_rls pool.rls
      → IsAccounted pool'.rl_bucket pool'.prealloc_rls pool'.rls

-- What it returns: a limiter, unless the pool of limiters is empty.
abbrev pub IsLimiter : Pool → Pool → Ptr → Type 0
IsLimiter pool pool' p =
    ((j : ℕ) × (p ≡ entry j) × IsAllocated pool'.rls j) ⊎ (pool.prealloc_rls ≡ [])

-- A bucket after an address is put at its head.
pub bucket-cons :
    {A : Type 0} (s s' : Store A) (buckets : ℕ → List ℕ) (b i : ℕ)
    → ((j : ℕ) → IsAllocated s j → IsAllocated s' j)
    → IsAllocated s' i
    → ((c : ℕ) → All (IsAllocated s) (buckets c))
    → (c : ℕ) → All (IsAllocated s') (set_bucket buckets b (i ∷ buckets b) c)
bucket-cons s s' buckets b i keep here h c = elim (Bool-cases (c == b)) [
  | inl same ↦ rw same (here, All-map _ _ keep (buckets b) (h b))
  | inr apart ↦ rw apart (All-map _ _ keep (buckets c) (h c))
]

IsPicked-refl : (pool : Pool) → IsValid pool → IsPicked pool pool
IsPicked-refl pool v = record {
  states = refl;
  state_bucket = refl;
  prealloc_states = refl;
  freelist_count = refl;
  rls_ok = v.rls_ok;
  free_rls = v.free_rls;
  taken = omega arith;
  alloc = λ j held. held;
  accounted = λ v. v;
}

take_rl_ok :
    (K : Kernel) (ip : ℕ) (pool : Pool) (frees : List ℕ)
    → IsValid pool
    → pool.prealloc_rls ≡ frees
    → (p : Ptr) × (pool' : Pool) × (take_rl K ip frees pool ≡ ok (p, pool'))
      × IsPicked pool pool'
      × IsLimiter pool pool' p
unfolding take_rl
take_rl_ok K ip pool [] v e = (list_head, pool, refl, IsPicked-refl pool v, inr e)
take_rl_ok K ip pool (i ∷ rest) v e =
    let ((rl, here), frees) = rw e at v.free_rls in
    let keep = write-IsAllocated pool.rls i (record rl { ip = ip }) in
    (
      entry i,
      record pool {
        rls = write pool.rls i (record rl { ip = ip });
        rl_bucket = set_bucket pool.rl_bucket (rl_hash K ip) (i ∷ pool.rl_bucket (rl_hash K ip));
        prealloc_rls = rest;
      },
      rw here refl,
      record {
        states = refl;
        state_bucket = refl;
        prealloc_states = refl;
        freelist_count = refl;
        rls_ok =
            bucket-cons pool.rls _ pool.rl_bucket (rl_hash K ip) i keep (keep i (rl, here))
              v.rls_ok;
        free_rls = All-map _ _ keep rest frees;
        taken = rw e (omega arith);
        alloc = keep;
        accounted = λ v.
            write-IsAccounted _ rest pool.rls i (record rl { ip = ip }) (rl, here)
              (take-IsAccounted pool.rl_bucket i (rl_hash K ip) rest pool.rls
                (mod-lt (K.jhash ip 0xfaceface) (omega arith)) (rw e at v));
      },
      inl (i, refl, keep i (rl, here)),
    )

scan_rls_found :
    (rls : Store Rl) (ip : ℕ) (bucket : List ℕ)
    → All (IsAllocated rls) bucket
    → (scan_rls rls ip bucket ≡ ok null)
      ⊎ ((j : ℕ) × (scan_rls rls ip bucket ≡ ok (entry j)) × IsAllocated rls j)
unfolding scan_rls
scan_rls_found rls ip [] h = inl refl
scan_rls_found rls ip (i ∷ rest) ((rl, here), h) = elim (Bool-cases (rl.ip == ip)) [
  | inl match ↦ inr (i, rw (here, match) refl, (rl, here))
  | inr other ↦ rw (here, other) (scan_rls_found rls ip rest h)
]

pub pick_rl_ok :
    (K : Kernel) (ip : ℕ) (pool : Pool)
    → IsValid pool
    → (p : Ptr) × (pool' : Pool) × (pick_rl K ip pool ≡ ok (p, pool'))
      × IsPicked pool pool'
      × IsLimiter pool pool' p
unfolding pick_rl pick_found
pick_rl_ok K ip pool v =
    elim (scan_rls_found pool.rls ip (pool.rl_bucket (rl_hash K ip)) (v.rls_ok (rl_hash K ip))) [
      | inl gone ↦ rw gone (take_rl_ok K ip pool pool.prealloc_rls v refl)
      | inr (j, e, held) ↦ (entry j, pool, rw e refl, IsPicked-refl pool v, inl (j, refl, held))
    ]
