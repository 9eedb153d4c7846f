-- ===== src/Common/Results.antt =====
-- The outcome of code that can fault: a division by zero, or a read of an object that was freed.
use mathlib.Core.Path.{◌≡◌, refl}

pub data Result {ℓ} (A : Type ℓ) : Type ℓ where
  fault : Result A
  ok : A → Result A

infixl 5 ◌>>=◌
abbrev pub ◌>>=◌ {ℓ κ} : {A : Type ℓ} {B : Type κ} → Result A → (A → Result B) → Result B
fault >>= f = fault
ok a >>= f = f a

module _ {ℓ κ} {A : Type ℓ} {B : Type κ} where
  -- A chain that ends well has ended well at each step.
  pub >>=-eq-ok :
      {out : B} (step : Result A) (later : A → Result B)
      → (step >>= later) ≡ ok out
      → (a : A) × (step ≡ ok a) × (later a ≡ ok out)
  >>=-eq-ok fault later ends = absurd (cc)
  >>=-eq-ok (ok a) later ends = (a, refl, ends)

pub ok-inj {ℓ} : {A : Type ℓ} {a b : A} → ok a ≡ ok b → a ≡ b
ok-inj e = cc

pub fault-ne-ok {ℓ} : {A : Type ℓ} {a : A} → fault ≡ ok a → ⊥
fault-ne-ok e = cc
