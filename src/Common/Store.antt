-- ===== src/Common/Store.antt =====
-- Objects that are allocated and freed: a store maps an address to the object there, if it is
-- allocated. To read or write what is not allocated is a fault.
use Prim.Native.Nat.{ℕ}
use mathlib.Core.Path.{◌≡◌, refl, ap, ◌∙◌}
use mathlib.Core.Option.{Option, none, some}
use mathlib.Core.List.{List, [], ◌∷◌}
use mathlib.Core.Logic.{inl, inr}
use native.Mathlib.Omega.{arith}
use eyeq.Common.Tests.{Option-cases, ◌==◌, if◌then◌else◌, Bool-cases, ==_iff}
use eyeq.Common.Results.{Result, fault, ok, ◌>>=◌}
use eyeq.Common.Lists.{All, All-map}

abbrev pub Store {ℓ} : Type ℓ → Type ℓ
Store A = ℕ → Option A

module _ {ℓ} {A : Type ℓ} where
  abbrev pub write : Store A → ℕ → A → Store A
  write s i a j = if j == i then some a else s j

  abbrev pub free : Store A → ℕ → Store A
  free s i j = if j == i then none else s j

  abbrev pub of_option : Option A → Result A
  of_option none = fault
  of_option (some a) = ok a

  abbrev pub read : Store A → ℕ → Result A
  read s i = of_option (s i)

  -- An object is changed in place.
  unfoldable pub update_at : (A → A) → ℕ → Store A → Result (Store A)
  update_at f i s = read s i >>= λ a. ok (write s i (f a))

  -- The objects at the addresses of a list are changed, in order.
  unfoldable pub update_all : (A → A) → List ℕ → Store A → Result (Store A)
  unfolding update_at
  update_all f [] s = ok s
  update_all f (i ∷ rest) s = update_at f i s >>= update_all f rest

  abbrev pub IsAllocated : Store A → ℕ → Type ℓ
  IsAllocated s i = (a : A) × (s i ≡ some a)

  abbrev pub measure_of : (A → ℕ) → Option A → ℕ
  measure_of w none = 0
  measure_of w (some a) = w a

  -- A measure of the object at an address, and 0 if there is none.
  abbrev pub at : (A → ℕ) → Store A → ℕ → ℕ
  at w s i = measure_of w (s i)

  -- An object stands at the address, and has the property.
  abbrev pub Holds : (A → Type 0) → Store A → ℕ → Type ℓ
  Holds Q s i = (a : A) × (s i ≡ some a) × Q a

  -- What a loop that updates the objects at `ids` leaves.
  pub record Updated (f : A → A) (ids : List ℕ) (s s' : Store A) : Type (ℓ ⊔ 1) where
    pub keep : (Q : A → Type 0) → ((a : A) → Q (f a)) → (i : ℕ) → Holds Q s i → Holds Q s' i
    pub done : (Q : A → Type 0) → ((a : A) → Q (f a)) → All (Holds Q s') ids
    pub same : (w : A → ℕ) → ((a : A) → w (f a) ≡ w a) → (i : ℕ) → at w s' i ≡ at w s i
    pub alloc : (i : ℕ) → IsAllocated s i → IsAllocated s' i

  Updated-refl : (f : A → A) (s : Store A) → Updated f [] s s
  Updated-refl f s = record {
    keep = λ Q h i held. held;
    done = λ Q h. tt;
    same = λ w h i. refl;
    alloc = λ i held. held;
  }

  -- What is written has the property.
  pub write-Holds :
      (Q : A → Type 0) (s : Store A) (i : ℕ) (a : A)
      → Q a
      → (j : ℕ) → Holds Q s j
      → Holds Q (write s i a) j
  write-Holds Q s i a h j held = elim (Bool-cases (j == i)) [
    | inl here ↦ rw here (a, refl, h)
    | inr there ↦ rw there held
  ]

  write-same :
      (f : A → A) (w : A → ℕ) (s : Store A) (i : ℕ) (a : A)
      → s i ≡ some a
      → ((b : A) → w (f b) ≡ w b)
      → (j : ℕ) → at w (write s i (f a)) j ≡ at w s j
  write-same f w s i a e h j = elim (Bool-cases (j == i)) [
    | inl here ↦ rw (here, (==_iff j i).0 here, e) (h a)
    | inr there ↦ rw there refl
  ]

  -- What is allocated has measure 1, and what is not has measure 0.
  pub at_one-IsAllocated :
      (s s' : Store A) (i : ℕ)
      → at (λ a. 1) s' i ≡ at (λ a. 1) s i
      → IsAllocated s' i
      → IsAllocated s i
  at_one-IsAllocated s s' i same (a, here) = elim (Option-cases (s i)) [
    | inl gone ↦
        absurd (omega (arith, same, ap (measure_of (λ a. 1)) here, ap (measure_of (λ a. 1)) gone))
    | inr held ↦ held
  ]

  -- A write frees nothing.
  pub write-IsAllocated :
      (s : Store A) (i : ℕ) (a : A) (j : ℕ) → IsAllocated s j → IsAllocated (write s i a) j
  write-IsAllocated s i a j held = elim (Bool-cases (j == i)) [
    | inl here ↦ rw here (a, refl)
    | inr there ↦ rw there held
  ]

  -- If all the objects are allocated the loop does not fault.
  pub update_all-Updated :
      (f : A → A) (ids : List ℕ) (s : Store A)
      → All (IsAllocated s) ids
      → (s' : Store A) × (update_all f ids s ≡ ok s') × Updated f ids s s'
  unfolding update_all update_at
  update_all-Updated f [] s h = (s, refl, Updated-refl f s)
  update_all-Updated f (i ∷ rest) s ((a, e), h) =
      let s1 = write s i (f a) in
      let kept = write-IsAllocated s i (f a) in
      let (s', run, u) =
        update_all-Updated f rest s1 (All-map (IsAllocated s) (IsAllocated s1) kept rest h) in
      (
        s',
        rw e run,
        record {
          keep = λ Q q j held. u.keep Q q j (write-Holds Q s i (f a) (q a) j held);
          done = λ Q q. (u.keep Q q i (rw ((==_iff i i).1 refl) (f a, refl, q a)), u.done Q q);
          same = λ w q j. u.same w q j ∙ write-same f w s i a e q j;
          alloc = λ j held. u.alloc j (kept j held);
        },
      )
