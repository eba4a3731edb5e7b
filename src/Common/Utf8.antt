-- ===== src/Common/Utf8.antt =====
-- `utf8.Valid` of Go's standard library: one pass over the bytes, with the number of continuation
-- bytes still due and the range in which the next one must lie.
use kg_os.Common.Tests.{ltb, leb, if◌then◌else◌}
use kg_os.Common.Strings.{Bytes, IsBytes}
use Prim.Native.Nat.{ℕ, zero, suc}
use mathlib.Core.Path.{◌≡◌}
use mathlib.Core.Bool.{Bool, true, false, ◌&&◌}
use mathlib.Core.List.{[], ◌∷◌}
use native.Mathlib.Omega.{arith}
use kg_os.Common.Tests.{◌==◌}

-- How many continuation bytes follow the first byte `b` (255: `b` starts no character).
lead : ℕ → ℕ
lead b =
    if ltb b 0x80
    then 0
    else if ltb b 0xC2
    then 255
    else if ltb b 0xE0
    then 1
    else if ltb b 0xF0
    then 2
    else if ltb b 0xF5
    then 3
    else 255

-- The range of the second byte: no overlong form, no surrogate, nothing above U+10FFFF.
second_low : ℕ → ℕ
second_low b = if b == 0xE0 then 0xA0 else if b == 0xF0 then 0x90 else 0x80

second_high : ℕ → ℕ
second_high b = if b == 0xED then 0x9F else if b == 0xF4 then 0x8F else 0xBF

utf8_from : ℕ → ℕ → ℕ → Bytes → Bool
utf8_from zero low high [] = true
utf8_from (suc n) low high [] = false
utf8_from zero low high (b ∷ s) =
    ltb (lead b) 255 && utf8_from (lead b) (second_low b) (second_high b) s
utf8_from (suc n) low high (b ∷ s) = leb low b && leb b high && utf8_from n 0x80 0xBF s

unfoldable pub utf8_valid : Bytes → Bool
unfolding utf8_from lead second_low second_high
utf8_valid s = utf8_from 0 0 0 s

lead_byte : (b : ℕ) → ltb (lead b) 255 ≡ true → ltb b 256 ≡ true
unfolding lead
lead_byte b h = ground arith

second_high_byte : (b : ℕ) → ltb (second_high b) 256 ≡ true
unfolding second_high
second_high_byte b = ground arith

utf8_from-IsBytes :
    (n low high : ℕ) (s : Bytes) → ltb high 256 ≡ true → utf8_from n low high s ≡ true → IsBytes s
unfolding utf8_from
utf8_from-IsBytes n low high [] h e = tt
utf8_from-IsBytes zero low high (b ∷ s) h e = (
  ground (arith, lead_byte b),
  utf8_from-IsBytes (lead b) (second_low b) (second_high b) s (second_high_byte b) (ground arith),
)
utf8_from-IsBytes (suc n) low high (b ∷ s) h e =
    (ground arith, utf8_from-IsBytes n 0x80 0xBF s (ground arith) (ground arith))

pub utf8_valid-IsBytes : (s : Bytes) → utf8_valid s ≡ true → IsBytes s
unfolding utf8_valid
utf8_valid-IsBytes s e = utf8_from-IsBytes 0 0 0 s (ground arith) e
