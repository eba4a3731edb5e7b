-- ===== src/Kernel/Patch/Tokens.antt =====
-- `splitGitTokens`, `parseDiffGitPaths`, `parseSingleGitPath` and `stripGitPrefix` of
-- internal/kernel/patch_parser.go. `unquote` stands for `strconv.Unquote`.
pub mod TokenEnds
use kg_os.Common.{
  ℕ, zero, suc, Bytes, codes, ◌∷◌, [], List, ◌++◌, Bool, true, false, not, ◌||◌, ◌&&◌, Option, none,
  some, Outcome, ok, err, ◌>>=◌, if◌then◌else◌, ◌==◌, length, has_prefix, cut, utf8_valid,
}
use kg_os.Kernel.Errors.{ErrorCode}

-- How a loop on fuel stops: by an error of the source, or for want of fuel.
pub data Stop : Type 0 where
  code : ErrorCode → Stop
  out_of_fuel : Stop

abbrev pub Parsed {ℓ} : Type ℓ → Type ℓ
Parsed A = Outcome Stop A

abbrev pub parse_failed {ℓ} : {A : Type ℓ} → Parsed A
parse_failed = err (code ErrorCode.parse_error)

abbrev pub unsupported {ℓ} : {A : Type ℓ} → Parsed A
unsupported = err (code ErrorCode.unsupported_operation)

abbrev pub quote : ℕ
quote = b'"'

unfoldable pub skip_spaces : Bytes → Bytes
skip_spaces [] = []
skip_spaces (c ∷ s) = let rest = skip_spaces s in if c == b' ' then rest else c ∷ s

abbrev onto_left : ℕ → Bytes × Bytes → Bytes × Bytes
onto_left c (p, q) = (c ∷ p, q)

-- The quoted text behind its first `"`, up to the closing one, and what follows. The flag is
-- `escaped`.
unfoldable pub scan_quoted : Bool → Bytes → Bytes × Bytes
scan_quoted escaped [] = ([], [])
scan_quoted escaped (c ∷ s) =
    let rest = scan_quoted (not escaped && c == b'\\') s in
    if not escaped && c == quote then (c ∷ [], s) else onto_left c rest

-- The bytes up to a space or a tab, and what follows.
unfoldable pub scan_plain : Bytes → Bytes × Bytes
scan_plain [] = ([], [])
scan_plain (c ∷ s) =
    let rest = scan_plain s in if c == b' ' || c == b'\t' then ([], c ∷ s) else onto_left c rest

unfoldable pub ends_quote : Bytes → Bool
ends_quote [] = false
ends_quote (c ∷ []) = c == quote
ends_quote (c ∷ d ∷ s) = ends_quote (d ∷ s)

abbrev pub is_empty : Bytes → Bool
is_empty [] = true
is_empty (c ∷ s) = false

module _ (unquote : Bytes → Option Bytes) where
  decode_quoted : Bytes → Parsed Bytes
  decode_quoted raw = if not (ends_quote raw) then parse_failed else elim (unquote raw) [
    | none ↦ parse_failed
    | some decoded ↦ if utf8_valid decoded then ok decoded else parse_failed
  ]

  check_plain : Bytes → Parsed Bytes
  check_plain token = if is_empty token || not (utf8_valid token) then parse_failed else ok token

  quoted_token : Bytes × Bytes → Parsed (Bytes × Bytes)
  quoted_token (inner, rest) = decode_quoted (quote ∷ inner) >>= λ token. ok (token, rest)

  plain_token : Bytes × Bytes → Parsed (Bytes × Bytes)
  plain_token (raw, rest) = check_plain raw >>= λ token. ok (token, rest)

  -- One token of a text that begins with no space, and what follows it.
  next_token : ℕ → Bytes → Parsed (Bytes × Bytes)
  next_token c s =
      if c == quote then quoted_token (scan_quoted false s) else plain_token (scan_plain (c ∷ s))

  -- One round behind the spaces; `next` is the rest of the loop.
  tokens_at : (Bytes → List Bytes → Parsed (List Bytes)) → List Bytes → Bytes → Parsed (List Bytes)
  tokens_at next tokens [] = ok tokens
  tokens_at next tokens (c ∷ s) = next_token c s >>= λ found. next found.1 (tokens ++ found.0 ∷ [])

  tokens_from : ℕ → Bytes → List Bytes → Parsed (List Bytes)
  tokens_from zero raw tokens = err out_of_fuel
  tokens_from (suc fuel) raw tokens = tokens_at (tokens_from fuel) tokens (skip_spaces raw)

  unfoldable pub split_git_tokens : Bytes → Parsed (List Bytes)
  unfolding tokens_from tokens_at next_token quoted_token plain_token decode_quoted check_plain
      skip_spaces scan_quoted scan_plain ends_quote
  split_git_tokens raw = tokens_from (suc (length raw)) raw []

  two_paths : List Bytes → Parsed (Bytes × Bytes)
  two_paths (a ∷ b ∷ []) =
      if not (has_prefix a (codes "a/")) || not (has_prefix b (codes "b/"))
      then parse_failed
      else ok (a, b)
  two_paths _ = parse_failed

  one_path : List Bytes → Parsed Bytes
  one_path (a ∷ []) = ok a
  one_path _ = parse_failed

  unfoldable pub parse_diff_git_paths : Bytes → Parsed (Bytes × Bytes)
  unfolding two_paths
  parse_diff_git_paths raw = split_git_tokens raw >>= two_paths

  unfoldable pub parse_single_git_path : Bytes → Parsed Bytes
  unfolding one_path
  parse_single_git_path raw = split_git_tokens raw >>= one_path

unfoldable pub strip_git_prefix : Bytes → Bytes → Bytes
strip_git_prefix path prefix = if has_prefix path prefix then cut path prefix else path
