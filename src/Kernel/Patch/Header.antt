-- ===== src/Kernel/Patch/Header.antt =====
-- The header of a hunk: `hunkHeaderPattern` and `parseCount` of internal/kernel/patch_parser.go.
-- The pattern is `^@@ -([0-9]+)(?:,([0-9]+))? \+([0-9]+)(?:,([0-9]+))? @@(?: .*)?$`; a run of digits
-- is followed by no digit, so its match is read from left to right.
use kg_os.Common.{
  ℕ, Bytes, codes, ◌∷◌, [], Bool, Option, none, some, if◌then◌else◌, ◌==◌, leb, has_prefix, cut,
  parse_uint, is_digit, ◌&&◌, ◌||◌, not, ◌≡◌, refl,
}
use kg_os.Kernel.Patch.Tokens.{is_empty}

abbrev onto_left : ℕ → Bytes × Bytes → Bytes × Bytes
onto_left c (p, q) = (c ∷ p, q)

-- The digits that the text begins with, and the rest.
unfoldable pub span_digits : Bytes → Bytes × Bytes
span_digits [] = ([], [])
span_digits (c ∷ s) =
    let rest = span_digits s in if is_digit c then onto_left c rest else ([], c ∷ s)

-- `([0-9]+)(?:,([0-9]+))?`; where the second group matches nothing it is empty.
range_from : Bytes × Bytes → Option (Bytes × Bytes × Bytes)
range_from ([], s) = none
range_from (d ∷ ds, []) = some (d ∷ ds, [], [])
range_from (d ∷ ds, c ∷ s) =
    let (count, rest) = span_digits s in
    if c == b',' && not (is_empty count)
    then some (d ∷ ds, count, rest)
    else some (d ∷ ds, [], c ∷ s)

unfoldable pub read_range : Bytes → Option (Bytes × Bytes × Bytes)
unfolding range_from span_digits
read_range s = range_from (span_digits s)

abbrev pub max_int : ℕ
max_int = 9223372036854775807

abbrev bounded : Option ℕ → Option ℕ
bounded none = none
bounded (some n) = if leb n max_int then some n else none

-- `strconv.Atoi` of a run of digits.
unfoldable pub atoi : Bytes → Option ℕ
atoi s = bounded (parse_uint s)

-- `parseCount`: the count is 1 where the header has none.
unfoldable pub parse_count : Bytes → Bytes → Option (ℕ × ℕ)
unfolding atoi
parse_count start [] = elim (atoi start) [ none ↦ none | some position ↦ some (position, 1) ]
parse_count start (c ∷ s) = elim (atoi start) [
  | none ↦ none
  | some position ↦ elim (atoi (c ∷ s)) [ none ↦ none | some count ↦ some (position, count) ]
]

abbrev pub Ranges : Type 0
Ranges = (ℕ × ℕ) × (ℕ × ℕ)

-- ` @@`, and then nothing or a space with any text.
closes : Bytes → Bool
closes s =
    has_prefix s (codes " @@")
    && (is_empty (cut s (codes " @@")) || has_prefix (cut s (codes " @@")) (codes " "))

both : Option (ℕ × ℕ) → Option (ℕ × ℕ) → Option Ranges
both none new = none
both (some old) none = none
both (some old) (some new) = some (old, new)

new_range : Bytes × Bytes → Option (Bytes × Bytes × Bytes) → Option Ranges
new_range (start, count) none = none
new_range (start, count) (some (start', count', s)) =
    if closes s then both (parse_count start count) (parse_count start' count') else none

old_range : Option (Bytes × Bytes × Bytes) → Option Ranges
old_range none = none
old_range (some (start, count, s)) =
    if has_prefix s (codes " +")
    then new_range (start, count) (read_range (cut s (codes " +")))
    else none

-- The two ranges of a header line; a line that does not match and a number out of range are the
-- same error.
unfoldable pub parse_hunk_header : Bytes → Option Ranges
unfolding old_range new_range both closes read_range parse_count
parse_hunk_header line =
    if has_prefix line (codes "@@ -")
    then old_range (read_range (cut line (codes "@@ -")))
    else none

header_test : parse_hunk_header (codes "@@ -12,3 +14 @@ name:") ≡ some ((12, 3), (14, 1))
unfolding parse_hunk_header has_prefix cut parse_uint
header_test = refl

header_without_space : parse_hunk_header (codes "@@ -1 +1 @@x") ≡ none
unfolding parse_hunk_header has_prefix cut parse_uint
header_without_space = refl
