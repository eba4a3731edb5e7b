-- ===== src/Kernel/Model/Types.antt =====
-- The type of a property as text: `splitTopLevelTypeUnion` and `trimTopLevelNotNull` of
-- internal/kernel/snapshot.go, and `normalizePropertyNullability`.
use kg_os.Common.{
  ℕ, ◌+◌, ◌-◌, Bytes, codes, [], List, ◌∷◌, map, reverse, Bool, true, false, not, ◌||◌, ◌&&◌,
  if◌then◌else◌, ◌==◌, has_prefix, length, take, ok, err, ◌>>=◌, ◌>>◌, trim_space, to_upper, join,
}
use kg_os.Kernel.Errors.{Result, ErrorCode}
use kg_os.Kernel.Model.{Property, refuse, wrong, is_nil}

-- The loop at one byte: the depth and the member so far, in reverse, and the members that end.
unfoldable pub split_step : ℕ → Bytes → ℕ → Result (ℕ × Bytes × List Bytes)
split_step depth member b =
    if b == b'<'
    then ok (depth + 1, b ∷ member, [])
    else if b == b'>'
    then (if depth == 0 then err ErrorCode.consistency_error else ok (depth - 1, b ∷ member, []))
    else if b == b'|' && depth == 0
    then (if is_nil (trim_space (reverse member))
        then err ErrorCode.consistency_error
        else ok (0, [], trim_space (reverse member) ∷ []))
    else ok (depth, b ∷ member, [])

abbrev after_step : List Bytes → List Bytes → List Bytes
after_step [] rest = rest
after_step (m ∷ _) rest = m ∷ rest

unfoldable pub split_from : ℕ → Bytes → Bytes → Result (List Bytes)
unfolding split_step
split_from depth member [] =
    if not (depth == 0) || is_nil (trim_space (reverse member))
    then err ErrorCode.consistency_error
    else ok (trim_space (reverse member) ∷ [])
split_from depth member (b ∷ rule) = split_step depth member b >>= λ (depth', member', ended).
    split_from depth' member' rule >>= λ rest. ok (after_step ended rest)

unfoldable pub split_top_level_type_union : Bytes → Result (List Bytes)
unfolding split_from
split_top_level_type_union rule = split_from 0 [] rule

abbrev not_null : Bytes
not_null = codes " NOT NULL"

-- `strings.HasSuffix`.
unfoldable pub has_suffix : Bytes → Bytes → Bool
has_suffix s t = has_prefix (reverse s) (reverse t)

unfoldable pub trim_top_level_not_null : Bytes → Bytes × Bool
unfolding has_suffix
trim_top_level_not_null member =
    if has_suffix (to_upper member) not_null
    then (trim_space (take (length member - length not_null) member), true)
    else (member, false)

unfoldable pub any_not_null : List (Bytes × Bool) → Bool
any_not_null [] = false
any_not_null ((m, b) ∷ ms) = b || any_not_null ms

unfoldable pub all_not_null : List (Bytes × Bool) → Bool
all_not_null [] = true
all_not_null ((m, b) ∷ ms) = b && all_not_null ms

abbrev stripped : Bytes × Bool → Bytes
stripped (m, b) = m

-- Where every member of the union had it, the property is required, and its type is without it.
abbrev pub unified : Property → List (Bytes × Bool) → Property
unified p members =
    if all_not_null members
    then record p { required = true; type_text = join (codes " | ") (map stripped members) }
    else p

unfoldable pub with_members : Property → List (Bytes × Bool) → Result Property
unfolding any_not_null all_not_null
with_members p members =
    refuse (any_not_null members && not (all_not_null members)) >> ok (unified p members)

unfoldable pub of_union : Property → Result (List Bytes) → Result Property
unfolding with_members trim_top_level_not_null
of_union p (err e) = wrong
of_union p (ok members) = with_members p (map trim_top_level_not_null members)

-- `normalizePropertyNullability`.
unfoldable pub normalize_property_nullability : Property → Result Property
unfolding of_union
normalize_property_nullability p = of_union p (split_top_level_type_union p.type_text)
