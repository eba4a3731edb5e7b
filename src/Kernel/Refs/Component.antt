-- ===== src/Kernel/Refs/Component.antt =====
-- `encodeRefComponent`, `decodeRefComponent` and `fromHex` of internal/kernel/refs.go.
use kg_os.Common.{
  ℕ, ◌+◌, ◌-◌, ◌*◌, ◌/◌, ◌%◌, Bytes, ◌∷◌, [], Bool, ◌||◌, ◌&&◌, Option, none, some, if◌then◌else◌,
  ltb, leb, ◌==◌, utf8_valid,
}

abbrev pub is_between : ℕ → ℕ → ℕ → Bool
is_between low high b = leb low b && leb b high

-- The bytes that stay as they are.
unfoldable pub is_unreserved : ℕ → Bool
is_unreserved b =
    is_between b'a' b'z' b
    || is_between b'A' b'Z' b
    || is_between b'0' b'9' b
    || b == b'-'
    || b == b'.'
    || b == b'_'
    || b == b'~'

-- The digit `"0123456789ABCDEF"[n]`.
unfoldable pub hex_digit : ℕ → ℕ
hex_digit n = if ltb n 10 then b'0' + n else b'A' + (n - 10)

unfoldable pub encode_ref_component : Bytes → Bytes
encode_ref_component [] = []
encode_ref_component (b ∷ s) =
    let rest = encode_ref_component s in
    if is_unreserved b then b ∷ rest else b'%' ∷ hex_digit (b / 16) ∷ hex_digit (b % 16) ∷ rest

unfoldable pub from_hex : ℕ → Option ℕ
from_hex value =
    if is_between b'0' b'9' value
    then some (value - b'0')
    else if is_between b'A' b'F' value
    then some (value - b'A' + 10)
    else if is_between b'a' b'f' value
    then some (value - b'a' + 10)
    else none

abbrev is_lower_hex : ℕ → Bool
is_lower_hex = is_between b'a' b'f'

-- The byte of one escape: both digits are hexadecimal, and neither is in lower case.
unfoldable pub escaped_byte : ℕ → ℕ → Option ℕ
unfolding from_hex
escaped_byte h l = elim (from_hex h) [
  | none ↦ none
  | some high ↦ elim (from_hex l) [
    | none ↦ none
    | some low ↦ if is_lower_hex h || is_lower_hex l then none else some (high * 16 + low)
  ]
]

abbrev pub prepend : Option ℕ → Option Bytes → Option Bytes
prepend none s = none
prepend (some b) none = none
prepend (some b) (some s) = some (b ∷ s)

-- The loop over the text: `none` stands for either error.
unfoldable pub decode_bytes : Bytes → Option Bytes
unfolding escaped_byte
decode_bytes [] = some []
decode_bytes (c ∷ []) = if c == b'%' then none else some (c ∷ [])
decode_bytes (c ∷ h ∷ []) =
    let next = decode_bytes (h ∷ []) in if c == b'%' then none else prepend (some c) next
decode_bytes (c ∷ h ∷ l ∷ s) =
    let after = decode_bytes s in
    let next = decode_bytes (h ∷ l ∷ s) in
    if c == b'%' then prepend (escaped_byte h l) after else prepend (some c) next

abbrev check_utf8 : Option Bytes → Option Bytes
check_utf8 none = none
check_utf8 (some decoded) = if utf8_valid decoded then some decoded else none

unfoldable pub decode_ref_component : Bytes → Option Bytes
unfolding decode_bytes
decode_ref_component value = check_utf8 (decode_bytes value)
