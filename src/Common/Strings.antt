-- ===== src/Common/Strings.antt =====
-- Go strings as lists of bytes: literals, equality, prefixes (`strings.HasPrefix`, `TrimPrefix`).
use Prim.Native.Nat.{ℕ, ◌<◌}
use Prim.Native.Char.{code}
use Prim.Native.String.{String}
use mathlib.Core.Path.{◌≡◌, refl}
use mathlib.Core.Logic.{◌↔◌, inl, inr}
use mathlib.Core.Bool.{Bool, true, false, ◌&&◌}
use mathlib.Core.Option.{Option, none, some}
use mathlib.Core.List.{List, [], ◌∷◌, ◌++◌}
use native.Mathlib.Omega.{arith}
use kg_os.Common.Tests.{if◌then◌else◌, Option-cases, ◌==◌}
use kg_os.Common.Lists.{All}

abbrev pub Bytes : Type 0
Bytes = List ℕ

-- The code points of a literal, which are its bytes where the text is ASCII.
abbrev pub codes : String → Bytes
codes String.[] = []
codes (String.◌∷◌ c s) = code c ∷ codes s

unfoldable pub bytes_eq : Bytes → Bytes → Bool
bytes_eq [] [] = true
bytes_eq (a ∷ s) (b ∷ t) = a == b && bytes_eq s t
bytes_eq _ _ = false

pub bytes_eq_sound : (s t : Bytes) → bytes_eq s t ≡ true → s ≡ t
unfolding bytes_eq
bytes_eq_sound [] [] h = refl
bytes_eq_sound [] (b ∷ t) h = ground arith
bytes_eq_sound (a ∷ s) [] h = ground arith
bytes_eq_sound (a ∷ s) (b ∷ t) h = ground (arith, bytes_eq_sound s t)

pub bytes_eq_refl : (s : Bytes) → bytes_eq s s ≡ true
unfolding bytes_eq
bytes_eq_refl [] = refl
bytes_eq_refl (a ∷ s) = ground (arith, bytes_eq_refl s)

pub bytes_eq_iff : (s t : Bytes) → (bytes_eq s t ≡ true) ↔ (s ≡ t)
bytes_eq_iff s t = (bytes_eq_sound s t, λ e. subst_eq e)
  where
    subst_eq : s ≡ t → bytes_eq s t ≡ true
    subst_eq e = rw e (bytes_eq_refl t)

-- `strings.HasPrefix s p`.
unfoldable pub has_prefix : Bytes → Bytes → Bool
has_prefix s [] = true
has_prefix [] (b ∷ p) = false
has_prefix (a ∷ s) (b ∷ p) = a == b && has_prefix s p

-- `strings.TrimPrefix s p`, where `s` has the prefix.
unfoldable pub cut : Bytes → Bytes → Bytes
cut s [] = s
cut [] (b ∷ p) = []
cut (a ∷ s) (b ∷ p) = cut s p

pub has_prefix-append : (p s : Bytes) → has_prefix (p ++ s) p ≡ true
unfolding has_prefix
has_prefix-append [] s = refl
has_prefix-append (a ∷ p) s = ground (arith, has_prefix-append p s)

pub cut-append : (p s : Bytes) → cut (p ++ s) p ≡ s
unfolding cut
cut-append [] s = refl
cut-append (a ∷ p) s = cut-append p s

pub append-cut : (s p : Bytes) → has_prefix s p ≡ true → p ++ cut s p ≡ s
unfolding has_prefix cut
append-cut s [] h = refl
append-cut [] (b ∷ p) h = ground arith
append-cut (a ∷ s) (b ∷ p) h = ground (arith, append-cut s p)

abbrev pub IsByte : ℕ → Type 0
IsByte b = b < 256

abbrev pub IsBytes : Bytes → Type 0
IsBytes = All IsByte

-- No byte of the text is `b`.
abbrev pub Lacks : ℕ → Bytes → Type 0
Lacks b = All (λ c. (c == b) ≡ false)

before : ℕ → Option (Bytes × Bytes) → Option (Bytes × Bytes)
before c none = none
before c (some (p, q)) = some (c ∷ p, q)

-- The text before the first byte `b` and the text behind it (`strings.IndexByte`, and the slices
-- on both sides).
unfoldable pub split_byte : ℕ → Bytes → Option (Bytes × Bytes)
unfolding before
split_byte b [] = none
split_byte b (c ∷ s) = if c == b then some ([], s) else before c (split_byte b s)

pub split_byte-append : (b : ℕ) (p s : Bytes) → Lacks b p → split_byte b (p ++ b ∷ s) ≡ some (p, s)
unfolding split_byte
split_byte-append b [] s h = ground arith
split_byte-append b (c ∷ p) s (h, k) = ground (arith, split_byte-append b p s k)

pub append-split_byte :
    (b : ℕ) (t : Bytes) {p s : Bytes} → split_byte b t ≡ some (p, s) → t ≡ p ++ b ∷ s
unfolding split_byte
append-split_byte b [] e = cc
append-split_byte b (c ∷ t) {p} {s} e = elim (Option-cases (split_byte b t)) [
  | inl missed ↦ ground (arith, missed)
  | inr ((p', s'), found) ↦ ground (arith, found, append-split_byte b t found)
]
