-- ===== src/Common/Decimal.antt =====
-- `strconv.ParseUint(s, 10, 64)` and `strconv.FormatUint(n, 10)`.
use Prim.Native.Nat.{ℕ, zero, suc, ◌+◌, ◌-◌, ◌*◌, ◌/◌, ◌%◌, ◌≤◌, ◌<◌}
use mathlib.Core.Path.{◌≡◌, refl, ◌∙◌, subst}
use mathlib.Core.Bool.{Bool, false, ◌&&◌}
use mathlib.Core.Logic.{◌≢◌, inl, inr}
use mathlib.Core.Option.{Option, none, some}
use mathlib.Core.List.{[], ◌∷◌}
use native.Mathlib.Omega.{arith}
use kg_os.Common.Tests.{ltb, leb, ◌==◌, if◌then◌else◌, Bool-cases}
use kg_os.Common.Strings.{Bytes, codes}
use kg_os.Common.Lists.{length}

abbrev pub max_u64 : ℕ
max_u64 = 18446744073709551615

abbrev pub is_digit : ℕ → Bool
is_digit c = leb b'0' c && leb c b'9'

scan : Bytes → ℕ → Option ℕ
scan [] n = some n
scan (c ∷ s) n =
    let value = n * 10 + (c - b'0') in
    let rest = scan s value in if is_digit c && leb value max_u64 then rest else none

-- `none` for a syntax error and for a value out of range.
unfoldable pub parse_uint : Bytes → Option ℕ
unfolding scan
parse_uint [] = none
parse_uint (c ∷ s) = scan (c ∷ s) 0

format_from : ℕ → ℕ → Bytes → Bytes
format_from zero n out = out
format_from (suc fuel) n out =
    let rest = format_from fuel (n / 10) ((b'0' + n % 10) ∷ out) in
    if ltb n 10 then (b'0' + n) ∷ out else rest

unfoldable pub format_uint : ℕ → Bytes
unfolding format_from
format_uint n = format_from (suc n) n []

scan_digit :
    (n : ℕ) (out : Bytes) → n ≤ max_u64 → scan ((b'0' + n % 10) ∷ out) (n / 10) ≡ scan out n
unfolding scan
scan_digit n out k =
    let same : n / 10 * 10 + (b'0' + n % 10 - b'0') ≡ n = omega arith in rw same (ground arith)

scan-format_from :
    (fuel n : ℕ) (out : Bytes)
    → n < fuel
    → n ≤ max_u64
    → scan (format_from fuel n out) 0 ≡ scan out n
unfolding format_from
scan-format_from zero n out h k = absurd (omega arith)
scan-format_from (suc fuel) n out h k = elim (Bool-cases (ltb n 10)) [
  | inl small ↦ rw small (unfold scan in ground arith)
  | inr big ↦ rw big (
      scan-format_from fuel (n / 10) ((b'0' + n % 10) ∷ out) (ground arith) (ground arith)
      ∙ scan_digit n out k)
]

-- The text that `format_uint` writes begins with a digit, and with "0" for 0 only.
abbrev IsNumeral : ℕ → Bytes → Type 0
IsNumeral n [] = ⊥
IsNumeral n (c ∷ s) = 0 < n → c ≢ b'0'

IsNumeral-tenth : (n : ℕ) (s : Bytes) → 0 < n / 10 → IsNumeral (n / 10) s → IsNumeral n s
IsNumeral-tenth n [] p h = h
IsNumeral-tenth n (c ∷ s) p h = λ q. h p

format_from-IsNumeral : (fuel n : ℕ) (out : Bytes) → n < fuel → IsNumeral n (format_from fuel n out)
unfolding format_from
format_from-IsNumeral zero n out h = absurd (omega arith)
format_from-IsNumeral (suc fuel) n out h = elim (Bool-cases (ltb n 10)) [
  | inl small ↦ rw small (λ p. omega arith)
  | inr big ↦ rw big (
      IsNumeral-tenth n _ (ground arith)
        (format_from-IsNumeral fuel (n / 10) ((b'0' + n % 10) ∷ out) (ground arith)))
]

scan-le : (s : Bytes) (n k : ℕ) → n ≤ max_u64 → scan s n ≡ some k → k ≤ max_u64
unfolding scan
scan-le [] n k h e = ground arith
scan-le (c ∷ s) n k h e = ground (arith, scan-le s (n * 10 + (c - b'0')) k)

-- A value that is parsed fits 64 bits.
pub parse_uint-le : (s : Bytes) {k : ℕ} → parse_uint s ≡ some k → k ≤ max_u64
unfolding parse_uint
parse_uint-le [] e = cc
parse_uint-le (c ∷ s) {k} e = scan-le (c ∷ s) 0 k (omega arith) e

-- The test that Go's `len(id) > 1 && id[0] == '0'` makes.
abbrev pub has_leading_zero : Bytes → Bool
has_leading_zero [] = false
has_leading_zero (c ∷ s) = ltb 1 (length (c ∷ s)) && c == b'0'

has_leading_zero_of_IsNumeral :
    (n : ℕ) (s : Bytes) → 0 < n → IsNumeral n s → has_leading_zero s ≡ false
has_leading_zero_of_IsNumeral n [] p h = refl
has_leading_zero_of_IsNumeral n (c ∷ s) p h = ground (arith, h p)

pub has_leading_zero-format_uint : (n : ℕ) → has_leading_zero (format_uint n) ≡ false
unfolding format_uint
has_leading_zero-format_uint zero = refl
has_leading_zero-format_uint (suc n) =
    has_leading_zero_of_IsNumeral (suc n) _ (omega arith)
      (format_from-IsNumeral (suc (suc n)) (suc n) [] (omega arith))

parse_uint-eq-scan : (n : ℕ) (s : Bytes) → IsNumeral n s → parse_uint s ≡ scan s 0
unfolding parse_uint
parse_uint-eq-scan n [] h = absurd h
parse_uint-eq-scan n (c ∷ s) h = refl

-- Printing a 64-bit number and parsing the text gives the number back.
pub parse_uint-format_uint : (n : ℕ) → n ≤ max_u64 → parse_uint (format_uint n) ≡ some n
unfolding format_uint
parse_uint-format_uint n h =
    parse_uint-eq-scan n _ (format_from-IsNumeral (suc n) n [] (omega arith))
    ∙ scan-format_from (suc n) n [] (omega arith) h
    ∙ (unfold scan in refl)

pub format_uint-ne-nil : (n : ℕ) → format_uint n ≢ []
unfolding format_uint
format_uint-ne-nil n e = subst (IsNumeral n) e (format_from-IsNumeral (suc n) n [] (omega arith))

format_max_u64 : format_uint max_u64 ≡ codes "18446744073709551615"
unfolding format_uint
format_max_u64 = refl

parse_overflow : parse_uint (codes "18446744073709551616") ≡ none
unfolding parse_uint
parse_overflow = refl
