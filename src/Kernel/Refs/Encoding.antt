-- ===== src/Kernel/Refs/Encoding.antt =====
-- Escaping a name and reading it back.
use kg_os.Common.{
  ℕ, ◌/◌, ◌%◌, ◌<◌, Bytes, IsBytes, ◌∷◌, [], ◌||◌, All, true, false, some, ◌≡◌, refl, arith, inl,
  inr, Bool-cases, ◌==◌, utf8_valid, utf8_valid-IsBytes,
}
use kg_os.Kernel.Refs.Component.{
  is_unreserved, hex_digit, encode_ref_component, escaped_byte, prepend, decode_bytes,
  decode_ref_component,
}

escaped_byte-hex_digit :
    (b : ℕ) → b < 256 → escaped_byte (hex_digit (b / 16)) (hex_digit (b % 16)) ≡ some b
unfolding escaped_byte hex_digit
escaped_byte-hex_digit b h = ground arith

-- A byte that is no `%` is copied.
decode_bytes-cons :
    (c : ℕ) (s : Bytes)
    → (c == b'%') ≡ false
    → decode_bytes (c ∷ s) ≡ prepend (some c) (decode_bytes s)
unfolding decode_bytes
decode_bytes-cons c [] h = rw h
decode_bytes-cons c (x ∷ []) h = rw h
decode_bytes-cons c (x ∷ y ∷ s) h = rw h

decode_bytes-escape :
    (h l : ℕ) (s : Bytes)
    → decode_bytes (b'%' ∷ h ∷ l ∷ s) ≡ prepend (escaped_byte h l) (decode_bytes s)
unfolding decode_bytes
decode_bytes-escape h l s = refl

is_unreserved-ne-percent : (b : ℕ) → is_unreserved b ≡ true → (b == b'%') ≡ false
unfolding is_unreserved
is_unreserved-ne-percent b h = ground arith

pub decode_bytes-encode : (s : Bytes) → IsBytes s → decode_bytes (encode_ref_component s) ≡ some s
unfolding encode_ref_component
decode_bytes-encode [] _ = unfold decode_bytes in refl
decode_bytes-encode (b ∷ s) (small, h) = elim (Bool-cases (is_unreserved b)) [
  | inl plain ↦ rw plain (
      ground (
        arith,
        decode_bytes-cons b (encode_ref_component s) (is_unreserved-ne-percent b plain),
        decode_bytes-encode s h,
      ))
  | inr other ↦ rw other (
      ground (
        arith,
        decode_bytes-escape (hex_digit (b / 16)) (hex_digit (b % 16)) (encode_ref_component s),
        escaped_byte-hex_digit b small,
        decode_bytes-encode s h,
      ))
]

-- Decoding is the inverse of encoding, on every text of bytes that is valid UTF-8.
pub decode_ref_component-encode :
    (s : Bytes) → utf8_valid s ≡ true → decode_ref_component (encode_ref_component s) ≡ some s
unfolding decode_ref_component
decode_ref_component-encode s v = rw (decode_bytes-encode s (utf8_valid-IsBytes s v)) (ground arith)

pub decode_ref_component-utf8 :
    (s : Bytes) {name : Bytes} → decode_ref_component s ≡ some name → utf8_valid name ≡ true
unfolding decode_ref_component
decode_ref_component-utf8 s e = ground arith

-- An encoded name holds only unreserved bytes, `%` and capital hexadecimal digits, so no byte
-- that separates anything.
abbrev IsPlain : ℕ → Type 0
IsPlain b = ((is_unreserved b || b == b'%') ≡ true)

pub encode-IsPlain : (s : Bytes) → IsBytes s → All IsPlain (encode_ref_component s)
unfolding encode_ref_component hex_digit is_unreserved
encode-IsPlain [] _ = tt
encode-IsPlain (b ∷ s) (small, h) = elim (Bool-cases (is_unreserved b)) [
  | inl plain ↦ ground (arith, encode-IsPlain s h)
  | inr other ↦ ground (arith, encode-IsPlain s h)
]
