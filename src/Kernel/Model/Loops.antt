-- ===== src/Kernel/Model/Loops.antt =====
-- The parts of a chain of checks that succeeds.
use kg_os.Common.{
  [], List, ◌∷◌, map, Bool, true, false, ok, err, ◌>>=◌, ◌>>◌, ◌≡◌, refl, ap₂, subst, All,
  >>=-eq-ok,
}
use kg_os.Kernel.Errors.{Result}
use kg_os.Kernel.Model.{refuse, each_ok, map_ok}

pub >>-eq-ok {κ} :
    {B : Type κ} (first : Result (Unit {0})) (next : Result B) {last : B}
    → (first >> next) ≡ ok last
    → (first ≡ ok tt) × (next ≡ ok last)
>>-eq-ok (ok tt) next done = (refl, done)
>>-eq-ok (err e) next done = cc

pub refuse-eq-ok : (bad : Bool) {u : Unit {0}} → refuse bad ≡ ok u → bad ≡ false
refuse-eq-ok true e = cc
refuse-eq-ok false e = refl

module _ {ℓ} {A : Type ℓ} where
  pub each_ok-eq-ok :
      (f : A → Result (Unit {0})) (xs : List A) {u : Unit {0}}
      → each_ok f xs ≡ ok u
      → All (λ x. f x ≡ ok tt) xs
  each_ok-eq-ok f [] done = tt
  each_ok-eq-ok f (x ∷ xs) done =
      let (first, rest) = >>-eq-ok (f x) (each_ok f xs) done in (first, each_ok-eq-ok f xs rest)

  pub each_ok-All :
      (f : A → Result (Unit {0})) (xs : List A) → All (λ x. f x ≡ ok tt) xs → each_ok f xs ≡ ok tt
  each_ok-All f [] h = refl
  each_ok-All f (x ∷ xs) (h, hs) = rw h (each_ok-All f xs hs)

  module _ {κ} {B : Type κ} (f : A → Result B) where
    -- What each success gives holds of every element.
    pub map_ok-All {π ρ} :
        (P : A → Type π) (Q : B → Type ρ) (xs : List A) {ys : List B}
        → ((x : A) (y : B) → P x → f x ≡ ok y → Q y)
        → All P xs
        → map_ok f xs ≡ ok ys
        → All Q ys
    map_ok-All P Q [] {ys} step h done = let same : [] ≡ ys = cc done in subst (All Q) same tt
    map_ok-All P Q (x ∷ xs) {ys} step (h, hs) done =
        let (y, first, next) = >>=-eq-ok (f x) (λ y. map_ok f xs >>= λ ys. ok (y ∷ ys)) done in
        let (rest, second, last) = >>=-eq-ok (map_ok f xs) (λ ys. ok (y ∷ ys)) next in
        let same : y ∷ rest ≡ ys = cc last in
        subst (All Q) same (step x y h first, map_ok-All P Q xs step hs second)

    pub map_ok-map {γ} :
        {C : Type γ} (g : B → C) (h : A → C) (xs : List A) {ys : List B}
        → ((x : A) (y : B) → f x ≡ ok y → g y ≡ h x)
        → map_ok f xs ≡ ok ys
        → map g ys ≡ map h xs
    map_ok-map g h [] {ys} step done =
        let same : [] ≡ ys = cc done in subst (λ zs. map g zs ≡ []) same refl
    map_ok-map g h (x ∷ xs) {ys} step done =
        let (y, first, next) = >>=-eq-ok (f x) (λ y. map_ok f xs >>= λ ys. ok (y ∷ ys)) done in
        let (rest, second, last) = >>=-eq-ok (map_ok f xs) (λ ys. ok (y ∷ ys)) next in
        let same : y ∷ rest ≡ ys = cc last in
        subst (λ zs. map g zs ≡ map h (x ∷ xs)) same
          (ap₂ (λ a b. a ∷ b) (step x y first) (map_ok-map g h xs step second))

module _ {ℓ π ρ} {A : Type ℓ} (P : A → Type π) (Q : A → Type ρ) where
  pub All-map : (xs : List A) → ((x : A) → P x → Q x) → All P xs → All Q xs
  All-map [] step h = tt
  All-map (x ∷ xs) step (h, hs) = (step x h, All-map xs step hs)
