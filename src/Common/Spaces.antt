-- ===== src/Common/Spaces.antt =====
-- `strings.TrimSpace`, `strings.Contains`, `strings.Join`, the order of strings, and as much of
-- `strings.ToUpper` as shows in a comparison with an ASCII text.
use Prim.Native.Nat.{ℕ, zero, suc, ◌-◌}
use mathlib.Core.Bool.{Bool, true, false, ◌&&◌, ◌||◌}
use mathlib.Core.List.{List, [], ◌∷◌, ◌++◌, reverse}
use kg_os.Common.Tests.{if◌then◌else◌, ltb, leb, ◌==◌}
use kg_os.Common.Strings.{Bytes, bytes_eq, has_prefix}

-- How many bytes the white space at the front has: 0 where there is none. These are the runes of
-- `unicode.IsSpace` as UTF-8.
space_width : Bytes → ℕ
space_width (a ∷ b ∷ c ∷ s) =
    if (leb 9 a && leb a 13) || a == 32
    then 1
    else if a == 0xC2 && (b == 0x85 || b == 0xA0)
    then 2
    else if (a == 0xE1 && b == 0x9A && c == 0x80)
        || (a == 0xE2
            && b == 0x80
            && (leb 0x80 c && leb c 0x8A || c == 0xA8 || c == 0xA9 || c == 0xAF))
        || (a == 0xE2 && b == 0x81 && c == 0x9F)
        || (a == 0xE3 && b == 0x80 && c == 0x80)
    then 3
    else 0
space_width (a ∷ b ∷ []) =
    if (leb 9 a && leb a 13) || a == 32
    then 1
    else if a == 0xC2 && (b == 0x85 || b == 0xA0)
    then 2
    else 0
space_width (a ∷ []) = if (leb 9 a && leb a 13) || a == 32 then 1 else 0
space_width [] = 0

-- How many bytes the white space at the end has, of the bytes in reverse.
last_width : Bytes → ℕ
unfolding space_width
last_width (c ∷ b ∷ a ∷ s) =
    if space_width (c ∷ []) == 1
    then 1
    else if space_width (b ∷ c ∷ []) == 2
    then 2
    else if space_width (a ∷ b ∷ c ∷ []) == 3
    then 3
    else 0
last_width (c ∷ b ∷ []) =
    if space_width (c ∷ []) == 1 then 1 else if space_width (b ∷ c ∷ []) == 2 then 2 else 0
last_width (c ∷ []) = space_width (c ∷ [])
last_width [] = 0

-- Without what is at the front, as `width` tells it; `n` bytes of it are still to be left out.
trim_with : (Bytes → ℕ) → ℕ → Bytes → Bytes
trim_with width n [] = []
trim_with width zero (a ∷ s) = elim (width (a ∷ s)) [ zero ↦ a ∷ s | suc n ↦ trim_with width n s ]
trim_with width (suc n) (a ∷ s) = trim_with width n s

unfoldable pub trim_space : Bytes → Bytes
unfolding trim_with space_width last_width
trim_space s = reverse (trim_with last_width 0 (reverse (trim_with space_width 0 s)))

unfoldable pub contains_text : Bytes → Bytes → Bool
contains_text [] t = bytes_eq t []
contains_text (a ∷ s) t = has_prefix (a ∷ s) t || contains_text s t

unfoldable pub join : Bytes → List Bytes → Bytes
join separator [] = []
join separator (s ∷ []) = s
join separator (s ∷ t ∷ ts) = s ++ separator ++ join separator (t ∷ ts)

first_byte : Bytes → ℕ
first_byte [] = 0
first_byte (a ∷ s) = a

-- What a byte becomes, by the bytes next to it: `ı` and `ſ`, of two bytes each, become ASCII.
upper_byte : ℕ → ℕ → ℕ → Bytes
upper_byte before a next =
    if leb b'a' a && leb a b'z'
    then (a - 32) ∷ []
    else if (a == 0xC4 && next == 0xB1) || (a == 0xC5 && next == 0xBF)
    then []
    else if before == 0xC4 && a == 0xB1
    then b'I' ∷ []
    else if before == 0xC5 && a == 0xBF
    then b'S' ∷ []
    else a ∷ []

upper_from : ℕ → Bytes → Bytes
unfolding first_byte upper_byte
upper_from before [] = []
upper_from before (a ∷ s) = upper_byte before a (first_byte s) ++ upper_from a s

unfoldable pub to_upper : Bytes → Bytes
unfolding upper_from
to_upper s = upper_from 0 s

-- `s <= t`.
unfoldable pub text_leb : Bytes → Bytes → Bool
text_leb [] t = true
text_leb (a ∷ s) [] = false
text_leb (a ∷ s) (b ∷ t) = ltb a b || (a == b && text_leb s t)
