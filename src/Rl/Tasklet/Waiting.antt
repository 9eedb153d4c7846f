-- ===== src/Rl/Tasklet/Waiting.antt =====
-- The invariant of the queues of one cpu that wait for its timer: the list holds exactly the queues
-- that are marked, and each queue that holds packets is one of them.
use eyeq.Common.{
  ℕ, ◌≡◌, refl, sym, ap, ◌∙◌, ◌⊎◌, Bool, true, false, Option, none, some, List, [], ◌∷◌, arith,
  ◌==◌, Bool-cases, ==_iff, inl, inr, contains, Distinct, contains-append_last,
  Distinct-append_last,
}
use mathlib.Core.Path.{fun_ext}
use eyeq.Common.Store.{Store, write}
use eyeq.Rl.{Rl}
use eyeq.Rl.Tasklet.{Limiters}
use eyeq.Rl.Tasklet.Armed.{Listing}

abbrev pub active_in : ℕ → Option Rl → Bool
active_in cpu none = false
active_in cpu (some rl) = (rl.queue cpu).active

abbrev pub Named : ℕ → Option Rl → Type 0
Named i none = Unit {0}
Named i (some rl) = rl.id ≡ i

-- The list of the cpu's block is that of the queues that are marked active; a limiter's id is its
-- address.
pub record IsListed (cpu : ℕ) (rls : Store Rl) (ids : List ℕ) : Type 0 where
  pub listed : (i : ℕ) → contains i ids ≡ active_in cpu (rls i)
  pub distinct : Distinct ids
  pub named : (i : ℕ) → Named i (rls i)

-- A queue with packets is marked.
abbrev pub Waits : ℕ → Option Rl → Type 0
Waits cpu none = Unit {0}
Waits cpu (some rl) = ((rl.queue cpu).list ≡ []) ⊎ ((rl.queue cpu).active ≡ true)

-- A limiter is that of a class, or has such a parent.
abbrev pub HasParent : Store Rl → ℕ → Option Rl → Type 0
HasParent rls p none = Unit {0}
HasParent rls p (some rl) = (rl.txc ≡ false) ⊎ ((up : Rl) × (rls p ≡ some up) × (up.txc ≡ false))

pub record IsWaiting (cpu : ℕ) (t : Limiters) : Type 0 where
  pub listed : IsListed cpu t.rls t.cb.active_list
  pub held : (i : ℕ) → Waits cpu (t.rls i)
  pub parents : (i : ℕ) → HasParent t.rls (t.parent i) (t.rls i)

pub write_here : (rls : Store Rl) (i : ℕ) (rl : Rl) → write rls i rl i ≡ some rl
write_here rls i rl = rw ((==_iff i i).1 refl) refl

-- A property of each limiter stays true when one is written that has it.
pub write-keeps :
    (Q : ℕ → Option Rl → Type 0) (rls : Store Rl) (i : ℕ) (rl : Rl)
    → Q i (some rl)
    → ((j : ℕ) → (j == i) ≡ false → Q j (rls j))
    → (j : ℕ) → Q j (write rls i rl j)
write-keeps Q rls i rl here others j = elim (Bool-cases (j == i)) [
  | inl same ↦ rw (same, (==_iff j i).0 same) here
  | inr apart ↦ rw apart (others j apart)
]

-- A limiter that is written with the list that its queue's mark asks for.
pub put-IsListed :
    (cpu : ℕ) (rls : Store Rl) (ids ids' : List ℕ) (i : ℕ) (rl rl' : Rl)
    → rls i ≡ some rl
    → rl'.id ≡ i
    → Listing i (rl.queue cpu).active (rl'.queue cpu).active ids ids'
    → IsListed cpu rls ids
    → IsListed cpu (write rls i rl') ids'
put-IsListed cpu rls ids ids' i rl rl' e name (inl (same, kept)) v = record {
  listed =
      write-keeps (λ j o. contains j ids' ≡ active_in cpu o) rls i rl'
        (rw kept (v.listed i ∙ ap (active_in cpu) e ∙ sym same)) (λ j apart. rw kept (v.listed j));
  distinct = rw kept v.distinct;
  named = write-keeps Named rls i rl' name (λ j apart. v.named j);
}
put-IsListed cpu rls ids ids' i rl rl' e name (inr (off, on, last)) v =
    let absent : contains i ids ≡ false = v.listed i ∙ ap (active_in cpu) e ∙ off in
    record {
      listed =
          write-keeps (λ j o. contains j ids' ≡ active_in cpu o) rls i rl'
            (rw (last, contains-append_last i i ids, absent, (==_iff i i).1 refl) (sym on))
            (λ j apart.
              rw (last, contains-append_last j i ids, apart) (ground (arith, v.listed j)));
      distinct = rw last (Distinct-append_last i ids v.distinct absent);
      named = write-keeps Named rls i rl' name (λ j apart. v.named j);
    }

-- `list_del_init` of the head.
pub pop-IsListed :
    (cpu : ℕ) (rls : Store Rl) (rest : List ℕ) (i : ℕ) (rl' : Rl)
    → rl'.id ≡ i
    → (rl'.queue cpu).active ≡ false
    → IsListed cpu rls (i ∷ rest)
    → IsListed cpu (write rls i rl') rest
pop-IsListed cpu rls rest i rl' name off v = record {
  listed =
      write-keeps (λ j o. contains j rest ≡ active_in cpu o) rls i rl' (v.distinct.0 ∙ sym off)
        (λ j apart. rw apart at (v.listed j));
  distinct = v.distinct.1;
  named = write-keeps Named rls i rl' name (λ j apart. v.named j);
}

pub write_other : (rls : Store Rl) (i j : ℕ) (rl : Rl) → (j == i) ≡ false → write rls i rl j ≡ rls j
write_other rls i j rl apart = rw apart refl

pub write_twice : (rls : Store Rl) (i : ℕ) (a b : Rl) → write (write rls i a) i b ≡ write rls i b
write_twice rls i a b =
    fun_ext
      (λ j. elim (Bool-cases (j == i)) [ inl same ↦ rw same refl | inr apart ↦ rw apart refl ])

pub write_under :
    (rls : Store Rl) (i p : ℕ) (a b c : Rl)
    → write (write (write rls i a) p b) i c ≡ write (write rls p b) i c
write_under rls i p a b c =
    fun_ext
      (λ j. elim (Bool-cases (j == i)) [ inl same ↦ rw same refl | inr apart ↦ rw apart refl ])

-- Limiters keep their parents when one is written that is of the same kind.
pub put-HasParent :
    (parent : ℕ → ℕ) (rls : Store Rl) (i : ℕ) (rl rl' : Rl)
    → rls i ≡ some rl
    → rl'.txc ≡ rl.txc
    → ((j : ℕ) → HasParent rls (parent j) (rls j))
    → (j : ℕ) → HasParent (write rls i rl') (parent j) (write rls i rl' j)
put-HasParent parent rls i rl rl' e same h =
    write-keeps (λ j o. HasParent (write rls i rl') (parent j) o) rls i rl'
      (moved i rl' (kind (rw e at (h i)))) (λ j apart. moves j (rls j) (h j))
  where
    up_of :
        (p : ℕ)
        → ((up : Rl) × (rls p ≡ some up) × (up.txc ≡ false))
        → (up : Rl) × (write rls i rl' p ≡ some up) × (up.txc ≡ false)
    up_of p (up, here, root) = elim (Bool-cases (p == i)) [
      | inl at_i ↦
          rw at_i (rl', refl, ground (arith, same, root, e, here, ap rls ((==_iff p i).0 at_i)))
      | inr apart ↦ rw apart (up, here, root)
    ]

    kind : HasParent rls (parent i) (some rl) → HasParent rls (parent i) (some rl')
    kind (inl root) = inl (same ∙ root)
    kind (inr up) = inr up

    moved :
        (j : ℕ) (a : Rl)
        → HasParent rls (parent j) (some a)
        → HasParent (write rls i rl') (parent j) (some a)
    moved j a (inl root) = inl root
    moved j a (inr up) = inr (up_of (parent j) up)

    moves :
        (j : ℕ) (o : Option Rl)
        → HasParent rls (parent j) o
        → HasParent (write rls i rl') (parent j) o
    moves j none u = tt
    moves j (some a) u = moved j a u
