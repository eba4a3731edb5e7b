-- ===== src/Kernel/Patch/Tokens/TokenEnds.antt =====
-- The loop over the tokens of a path line ends: each round takes a byte.
use kg_os.Common.{
  ℕ, ◌≤◌, ◌<◌, zero, suc, Bytes, ◌∷◌, [], List, ◌++◌, Bool, false, not, ◌&&◌, Option, ◌==◌, length,
  ◌≡◌, arith,
}
use kg_os.Kernel.Patch.Tokens.{
  Parsed, skip_spaces, scan_quoted, scan_plain, quote, decode_quoted, check_plain, quoted_token,
  plain_token, next_token, tokens_at, tokens_from, split_git_tokens, two_paths, one_path,
  parse_diff_git_paths, parse_single_git_path, is_empty,
}
use kg_os.Kernel.Patch.Parser.Ends.{Ends, Ends-bind}

abbrev pub Any {ℓ} : {A : Type ℓ} → A → Type 0
Any a = Unit

skip_spaces-le : (s : Bytes) → length (skip_spaces s) ≤ length s
unfolding skip_spaces
skip_spaces-le [] = omega arith
skip_spaces-le (c ∷ s) = ground (arith, skip_spaces-le s)

scan_quoted-le : (escaped : Bool) (s : Bytes) → length (scan_quoted escaped s).1 ≤ length s
unfolding scan_quoted
scan_quoted-le escaped [] = omega arith
scan_quoted-le escaped (c ∷ s) = ground (arith, scan_quoted-le (not escaped && c == b'\\') s)

scan_plain-le : (s : Bytes) → length (scan_plain s).1 ≤ length s
unfolding scan_plain
scan_plain-le [] = omega arith
scan_plain-le (c ∷ s) = ground (arith, scan_plain-le s)

-- A plain token that is not empty takes the first byte.
scan_plain-lt :
    (c : ℕ) (s : Bytes)
    → is_empty (scan_plain (c ∷ s)).0 ≡ false
    → length (scan_plain (c ∷ s)).1 ≤ length s
unfolding scan_plain
scan_plain-lt c s h = ground (arith, scan_plain-le s)

module _ (unquote : Bytes → Option Bytes) where
  abbrev Shorter : ℕ → Bytes × Bytes → Type 0
  Shorter n found = length found.1 ≤ n

  decode_quoted-Ends : (raw : Bytes) → Ends Any (decode_quoted unquote raw)
  unfolding decode_quoted
  decode_quoted-Ends raw = ground arith

  next_token-Ends : (c : ℕ) (s : Bytes) → Ends (Shorter (length s)) (next_token unquote c s)
  unfolding next_token quoted_token plain_token check_plain
  next_token-Ends c s = ground (
    arith,
    decode_quoted-Ends (quote ∷ (scan_quoted false s).0),
    scan_quoted-le false s,
    scan_plain-lt c s,
  )

  tokens_at-Ends :
      (next : Bytes → List Bytes → Parsed (List Bytes)) (tokens : List Bytes) (n : ℕ) (raw : Bytes)
      → length raw ≤ n
      → ((raw' : Bytes) (tokens' : List Bytes) → length raw' < n → Ends Any (next raw' tokens'))
      → Ends Any (tokens_at unquote next tokens raw)
  unfolding tokens_at
  tokens_at-Ends next tokens n [] h k = tt
  tokens_at-Ends next tokens n (c ∷ s) h k =
      Ends-bind (Shorter (length s)) Any (next_token unquote c s)
        (λ found. next found.1 (tokens ++ found.0 ∷ [])) (next_token-Ends c s)
        (λ found short. k found.1 (tokens ++ found.0 ∷ []) (omega arith))

  tokens_from-Ends :
      (fuel : ℕ) (raw : Bytes) (tokens : List Bytes)
      → length raw < fuel
      → Ends Any (tokens_from unquote fuel raw tokens)
  unfolding tokens_from
  tokens_from-Ends zero raw tokens h = absurd (omega arith)
  tokens_from-Ends (suc fuel) raw tokens h =
      tokens_at-Ends (tokens_from unquote fuel) tokens fuel (skip_spaces raw)
        (omega (arith, skip_spaces-le raw)) (tokens_from-Ends fuel)

  split_git_tokens-Ends : (raw : Bytes) → Ends Any (split_git_tokens unquote raw)
  unfolding split_git_tokens
  split_git_tokens-Ends raw = tokens_from-Ends (suc (length raw)) raw [] (omega arith)

  one_path-Ends : (tokens : List Bytes) → Ends Any (one_path unquote tokens)
  unfolding one_path
  one_path-Ends [] = tt
  one_path-Ends (a ∷ []) = tt
  one_path-Ends (a ∷ b ∷ ts) = tt

  two_paths-Ends : (tokens : List Bytes) → Ends Any (two_paths unquote tokens)
  unfolding two_paths
  two_paths-Ends [] = tt
  two_paths-Ends (a ∷ []) = tt
  two_paths-Ends (a ∷ b ∷ []) = ground arith
  two_paths-Ends (a ∷ b ∷ c ∷ ts) = tt

  -- Reading one path ends, whatever the text is.
  pub parse_single_git_path-Ends : (raw : Bytes) → Ends Any (parse_single_git_path unquote raw)
  unfolding parse_single_git_path
  parse_single_git_path-Ends raw =
      Ends-bind Any Any (split_git_tokens unquote raw) (one_path unquote)
        (split_git_tokens-Ends raw) (λ tokens _. one_path-Ends tokens)

  -- Reading two paths ends, whatever the text is.
  pub parse_diff_git_paths-Ends : (raw : Bytes) → Ends Any (parse_diff_git_paths unquote raw)
  unfolding parse_diff_git_paths
  parse_diff_git_paths-Ends raw =
      Ends-bind Any Any (split_git_tokens unquote raw) (two_paths unquote)
        (split_git_tokens-Ends raw) (λ tokens _. two_paths-Ends tokens)
