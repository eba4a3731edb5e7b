-- ===== src/Kernel/Patch/Parser/Ends.antt =====
-- A postcondition of code on fuel that also says that the fuel does not run out.
use kg_os.Common.{ok, err, ◌>>=◌, ◌≡◌, subst}
use kg_os.Kernel.Patch.Tokens.{code, out_of_fuel, Parsed}

-- The code ends: by a value with `P`, or by an error of the source.
abbrev pub Ends {ℓ} : {A : Type ℓ} → (A → Type 0) → Parsed A → Type 0
Ends P (ok a) = P a
Ends P (err (code c)) = Unit
Ends P (err out_of_fuel) = ⊥

pub Ends-bind {ℓ κ} :
    {A : Type ℓ} {B : Type κ} (P : A → Type 0) (Q : B → Type 0) (m : Parsed A) (f : A → Parsed B)
    → Ends P m
    → ((a : A) → P a → Ends Q (f a))
    → Ends Q (m >>= f)
Ends-bind P Q (ok a) f h k = k a h
Ends-bind P Q (err (code c)) f h k = tt
Ends-bind P Q (err out_of_fuel) f h k = absurd h

pub Ends-ok {ℓ} : {A : Type ℓ} (P : A → Type 0) (m : Parsed A) {a : A} → Ends P m → m ≡ ok a → P a
Ends-ok P m h e = subst (Ends P) e h
