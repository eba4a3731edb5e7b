-- ===== src/Common/Results.antt =====
-- Results of fallible code over any type of errors.
use mathlib.Core.Path.{◌≡◌, refl}
use mathlib.Core.Bool.{Bool, true, false}
use mathlib.Core.Logic.{◌⊎◌, inl, inr}
use kg_os.Common.Tests.{if◌then◌else◌}

pub data Outcome {ℓ κ} (E : Type κ) (A : Type ℓ) : Type (ℓ ⊔ κ) where
  ok : A → Outcome E A
  err : E → Outcome E A

module _ {ε ℓ κ} {E : Type ε} {A : Type ℓ} {B : Type κ} where
  infixl 5 ◌>>=◌
  abbrev pub ◌>>=◌ : Outcome E A → (A → Outcome E B) → Outcome E B
  err e >>= next = err e
  ok a >>= next = next a

  -- The parts of a chain that succeeds.
  pub >>=-eq-ok :
      (first : Outcome E A) (next : A → Outcome E B) {last : B}
      → (first >>= next) ≡ ok last
      → (found : A) × (first ≡ ok found) × (next found ≡ ok last)
  >>=-eq-ok (err e) next done = cc
  >>=-eq-ok (ok found) next done = (found, refl, done)

module _ {ε κ} {E : Type ε} {B : Type κ} where
  infixl 5 ◌>>◌
  abbrev pub ◌>>◌ : Outcome E (Unit {0}) → Outcome E B → Outcome E B
  ok _ >> k = k
  err e >> k = err e

module _ {ε} {E : Type ε} where
  -- `if !b { return e }`.
  abbrev pub guard : Bool → E → Outcome E (Unit {0})
  guard true e = ok tt
  guard false e = err e

  pub guard-eq-ok : (b : Bool) (e : E) {u : Unit {0}} → guard b e ≡ ok u → b ≡ true
  guard-eq-ok true e h = refl
  guard-eq-ok false e h = cc

pub Outcome-cases {ε ℓ} :
    {E : Type ε} {A : Type ℓ} (m : Outcome E A) → ((a : A) × (m ≡ ok a)) ⊎ ((e : E) × (m ≡ err e))
Outcome-cases (ok a) = inl (a, refl)
Outcome-cases (err e) = inr (e, refl)

module _ {ℓ κ} {A : Type ℓ} (P : A → Type κ) where
  -- Whichever branch is taken.
  pub each : (b : Bool) {x y : A} → P x → P y → P (if b then x else y)
  each true h k = h
  each false h k = k

  -- Each branch with what its test says.
  pub each_by : (b : Bool) {x y : A} → (b ≡ true → P x) → (b ≡ false → P y) → P (if b then x else y)
  each_by true f g = f refl
  each_by false f g = g refl
