-- ===== src/Config/Counts.antt =====
-- The count of a virtual queue is the number of classes that point to it.
use mathlib.Core.Path.{fun_ext}
use eyeq.Common.{
  ℕ, ◌+◌, ◌≤◌, ◌≡◌, refl, sym, ap, ◌∙◌, true, false, List, [], ◌∷◌, ◌++◌, none, some, arith, ◌==◌,
  if◌then◌else◌, Bool-cases, ==_iff, inl, inr, contains, Distinct, contains-append_last,
  Distinct-append_last, sum_by, sum_by-append,
}
use eyeq.Common.Store.{Store, at, write, free, measure_of}
use eyeq.Tx.{TxClass}
use eyeq.Tx.Classes.{remove}
use eyeq.Vq.{Vq}
use eyeq.Config.Frames.{refers, points_to, one, refcnt_of, SamePointers, SameCounts}

-- `live` has the addresses of the classes, each once.
pub record IsCounted (live : List ℕ) (txcs : Store TxClass) (vqs : Store Vq) : Type 0 where
  pub distinct : Distinct live
  pub alive : (i : ℕ) → at one txcs i ≡ (if contains i live then 1 else 0)
  pub counts : (v : ℕ) → at refcnt_of vqs v ≡ sum_by (at (points_to v) txcs) live

pub frame-IsCounted :
    (live : List ℕ) (txcs txcs' : Store TxClass) (vqs vqs' : Store Vq)
    → SamePointers txcs txcs'
    → SameCounts vqs vqs'
    → IsCounted live txcs vqs
    → IsCounted live txcs' vqs'
frame-IsCounted live txcs txcs' vqs vqs' p c v = record {
  distinct = v.distinct;
  alive = λ i. p.alive i ∙ v.alive i;
  counts = λ u.
      c u ∙ v.counts u ∙ ap (λ (f : ℕ → ℕ). sum_by f live) (fun_ext (λ j. sym (p.pointers u j)));
}

-- A sum over a list without `i` does not see a write at `i`.
sum-absent :
    (f g : ℕ → ℕ) (i : ℕ) (xs : List ℕ)
    → contains i xs ≡ false
    → ((j : ℕ) → (j == i) ≡ false → g j ≡ f j)
    → sum_by g xs ≡ sum_by f xs
sum-absent f g i [] out same = refl
sum-absent f g i (x ∷ xs) out same =
    let (apart, rest) = split_out in omega (arith, same x apart, sum-absent f g i xs rest same)
  where
    split_out : ((x == i) ≡ false) × (contains i xs ≡ false)
    split_out = (ground (arith, out), ground (arith, out))

-- One term of the sum changes.
sum-change :
    (f g : ℕ → ℕ) (i : ℕ) (xs : List ℕ)
    → Distinct xs
    → contains i xs ≡ true
    → ((j : ℕ) → (j == i) ≡ false → g j ≡ f j)
    → sum_by g xs + f i ≡ sum_by f xs + g i
sum-change f g i [] d has same = absurd (cc)
sum-change f g i (x ∷ xs) d has same = elim (Bool-cases (x == i)) [
  | inl here ↦
      let e : x ≡ i = (==_iff x i).0 here in
      let rest = sum-absent f g i xs (rw e at d.0) same in rw e (omega (arith, rest))
  | inr there ↦
      let later : contains i xs ≡ true = ground (arith, has, there) in
      omega (arith, same x there, sum-change f g i xs d.1 later same)
]

-- One term leaves the sum.
sum-remove :
    (f : ℕ → ℕ) (i : ℕ) (xs : List ℕ)
    → contains i xs ≡ true
    → sum_by f (remove i xs) + f i ≡ sum_by f xs
unfolding remove
sum-remove f i [] has = absurd (cc)
sum-remove f i (x ∷ xs) has = elim (Bool-cases (x == i)) [
  | inl here ↦ rw (here, (==_iff x i).0 here) (omega arith)
  | inr there ↦
      let later : contains i xs ≡ true = ground (arith, has, there) in
      rw there (omega (arith, sum-remove f i xs later))
]

contains-remove :
    (i j : ℕ) (xs : List ℕ)
    → Distinct xs
    → contains j (remove i xs) ≡ (if j == i then false else contains j xs)
unfolding remove
contains-remove i j [] d = ground arith
contains-remove i j (x ∷ xs) d = elim (Bool-cases (x == i)) [
  | inl here ↦ rw here (elim (Bool-cases (j == i)) [
    | inl same ↦ rw same (rw ((==_iff j i).0 same ∙ sym ((==_iff x i).0 here)) d.0)
    | inr apart ↦ ground (arith, here, apart)
  ])
  | inr there ↦ rw there (ground (arith, contains-remove i j xs d.1, there))
]

Distinct-remove : (i : ℕ) (xs : List ℕ) → Distinct xs → Distinct (remove i xs)
unfolding remove
Distinct-remove i [] d = tt
Distinct-remove i (x ∷ xs) d = elim (Bool-cases (x == i)) [
  | inl here ↦ rw here d.1
  | inr there ↦ rw there (ground (arith, contains-remove i x xs d.1, d.0), Distinct-remove i xs d.1)
]

at-some {ℓ} : {A : Type ℓ} (w : A → ℕ) (s : Store A) (i : ℕ) (a : A) → s i ≡ some a → at w s i ≡ w a
at-some w s i a e = rw e refl

at-write_here {ℓ} :
    {A : Type ℓ} (w : A → ℕ) (s : Store A) (i : ℕ) (a : A) → at w (write s i a) i ≡ w a
at-write_here w s i a = rw ((==_iff i i).1 refl) refl

at-write_there {ℓ} :
    {A : Type ℓ} (w : A → ℕ) (s : Store A) (i : ℕ) (a : A) (j : ℕ)
    → (j == i) ≡ false
    → at w (write s i a) j ≡ at w s j
at-write_there w s i a j apart = rw apart refl

-- A class that is allocated is live.
live_of :
    (live : List ℕ) (txcs : Store TxClass) (vqs : Store Vq) (i : ℕ) (txc : TxClass)
    → IsCounted live txcs vqs
    → txcs i ≡ some txc
    → contains i live ≡ true
live_of live txcs vqs i txc v e =
    let found : 1 ≡ (if contains i live then 1 else 0) =
      sym (at-some one txcs i txc e) ∙ v.alive i in
    ground (arith, found)

-- A queue that a live class points to has a reference.
pub refers-le :
    (live : List ℕ) (txcs : Store TxClass) (vqs : Store Vq) (i : ℕ) (txc : TxClass)
    → IsCounted live txcs vqs
    → txcs i ≡ some txc
    → (u : ℕ) → points_to u txc ≤ at refcnt_of vqs u
refers-le live txcs vqs i txc v e u = omega (
  arith,
  v.counts u,
  sum-remove (at (points_to u) txcs) i live (live_of live txcs vqs i txc v e),
  at-some (points_to u) txcs i txc e,
)

-- A new class points to no queue.
pub new-IsCounted :
    (live : List ℕ) (txcs : Store TxClass) (vqs : Store Vq) (i : ℕ) (txc : TxClass)
    → IsCounted live txcs vqs
    → txcs i ≡ none
    → txc.vq ≡ none
    → IsCounted (live ++ (i ∷ [])) (write txcs i txc) vqs
new-IsCounted live txcs vqs i txc v fresh alone = record {
  distinct = Distinct-append_last i live v.distinct absent;
  alive = λ j. elim (Bool-cases (j == i)) [
    | inl same ↦ rw same (rw (contains-append_last j i live, same) (ground arith))
    | inr apart ↦ rw apart (rw (contains-append_last j i live, apart) (ground (arith, v.alive j)))
  ];
  counts = λ u. omega (
    arith,
    v.counts u,
    sum_by-append (at (points_to u) (write txcs i txc)) live (i ∷ []),
    sum-absent (at (points_to u) txcs) (at (points_to u) (write txcs i txc)) i live absent
        (at-write_there (points_to u) txcs i txc),
    at-write_here (points_to u) txcs i txc,
    ap (refers u) alone,
  );
}
  where
    absent : contains i live ≡ false
    absent =
        let gone : 0 ≡ (if contains i live then 1 else 0) =
          sym (ap (λ o. measure_of one o) fresh) ∙ v.alive i in
        ground (arith, gone)

-- A class points to another queue, and the counts follow.
pub move-IsCounted :
    (live : List ℕ) (txcs : Store TxClass) (vqs vqs' : Store Vq) (i : ℕ) (txc txc' : TxClass)
    → IsCounted live txcs vqs
    → txcs i ≡ some txc
    → ((u : ℕ) → at refcnt_of vqs' u + points_to u txc ≡ at refcnt_of vqs u + points_to u txc')
    → IsCounted live (write txcs i txc') vqs'
move-IsCounted live txcs vqs vqs' i txc txc' v e moved = record {
  distinct = v.distinct;
  alive = λ j. elim (Bool-cases (j == i)) [
    | inl same ↦ rw same (sym (at-some one txcs i txc e) ∙ rw ((==_iff j i).0 same) (v.alive i))
    | inr apart ↦ rw apart (v.alive j)
  ];
  counts = λ u. omega (
    arith,
    v.counts u,
    moved u,
    sum-change (at (points_to u) txcs) (at (points_to u) (write txcs i txc')) i live v.distinct
        (live_of live txcs vqs i txc v e) (at-write_there (points_to u) txcs i txc'),
    at-write_here (points_to u) txcs i txc',
    at-some (points_to u) txcs i txc e,
  );
}

-- A class goes, with its reference.
pub drop-IsCounted :
    (live : List ℕ) (txcs : Store TxClass) (vqs vqs' : Store Vq) (i : ℕ) (txc : TxClass)
    → IsCounted live txcs vqs
    → txcs i ≡ some txc
    → ((u : ℕ) → at refcnt_of vqs' u + points_to u txc ≡ at refcnt_of vqs u)
    → IsCounted (remove i live) (free txcs i) vqs'
drop-IsCounted live txcs vqs vqs' i txc v e gone = record {
  distinct = Distinct-remove i live v.distinct;
  alive = λ j. elim (Bool-cases (j == i)) [
    | inl same ↦ rw same (rw (contains-remove i j live v.distinct, same) refl)
    | inr apart ↦ rw apart (rw (contains-remove i j live v.distinct, apart) (v.alive j))
  ];
  counts = λ u. omega (
    arith,
    v.counts u,
    gone u,
    sum-remove (at (points_to u) txcs) i live (live_of live txcs vqs i txc v e),
    at-some (points_to u) txcs i txc e,
    sum-absent (at (points_to u) txcs) (at (points_to u) (free txcs i)) i (remove i live)
        (contains-remove i i live v.distinct ∙ rw ((==_iff i i).1 refl) refl) (at-free_there u),
  );
}
  where
    at-free_there :
        (u j : ℕ) → (j == i) ≡ false → at (points_to u) (free txcs i) j ≡ at (points_to u) txcs j
    at-free_there u j apart = rw apart refl
