-- ===== src/Kernel/Patch/Document.antt =====
-- `parseGitPatch` of internal/kernel/patch_parser.go: the loops over entries and over the lines of
-- an entry, each on fuel; a round takes at least one line.
pub mod Entries
pub mod Accepts
use kg_os.Common.{
  ℕ, zero, suc, Bytes, codes, ◌∷◌, [], List, ◌++◌, Bool, true, false, not, ◌||◌, ◌&&◌, Option, ok,
  err, ◌>>=◌, if◌then◌else◌, ◌==◌, bytes_eq, length, has_prefix, cut, String,
}
use kg_os.Kernel.Patch.Text.{split_lines}
use kg_os.Kernel.Patch.Tokens.{
  out_of_fuel, Parsed, parse_failed, unsupported, parse_diff_git_paths, parse_single_git_path,
  strip_git_prefix,
}
use kg_os.Kernel.Patch.Parser.{
  diff_git, Entry, update, Draft, starts, read_hunks, with_headers, with_hunks, classify,
}

abbrev rest_of : Bytes → String → Bytes
rest_of line text = cut line (codes text)

abbrev is_skipped : Bytes → Bool
is_skipped line =
    starts line "similarity index " || starts line "dissimilarity index " || starts line "index "

abbrev is_outside_profile : Bytes → Bool
is_outside_profile line =
    starts line "copy from "
    || starts line "copy to "
    || starts line "old mode "
    || starts line "new mode "
    || bytes_eq line (codes "GIT binary patch")
    || starts line "Binary files "

abbrev set_rename_from : Draft → Bytes → Draft
set_rename_from d path = record d { entry = record d.entry { rename_from = path } }

abbrev set_rename_to : Draft → Bytes → Draft
set_rename_to d path = record d { entry = record d.entry { rename_to = path } }

-- The draft at an entry's first line.
unfoldable pub new_draft : Bytes × Bytes → Draft
new_draft (old, new) = record {
  entry = record {
    operation = update;
    old_target = strip_git_prefix old (codes "a/");
    new_target = strip_git_prefix new (codes "b/");
    rename_from = [];
    rename_to = [];
    hunks = [];
  };
  new_file = false;
  deleted_file = false;
  file_headers = false;
  old_dev_null = false;
  new_dev_null = false;
}

-- `strings.TrimSpace(text) == ""`, for ASCII spaces. (A text of other spaces only fails below,
-- with the same code: it does not begin with `diff --git `.)
unfoldable pub is_blank : Bytes → Bool
is_blank [] = true
is_blank (c ∷ s) =
    (c == b' ' || c == b'\t' || c == b'\n' || c == b'\r' || c == 11 || c == 12) && is_blank s

unfoldable pub has_return : Bytes → Bool
has_return [] = false
has_return (c ∷ s) = c == b'\r' || has_return s

-- The lines without a last one that is empty.
unfoldable pub drop_last_empty : List Bytes → List Bytes
drop_last_empty [] = []
drop_last_empty ([] ∷ []) = []
drop_last_empty (s ∷ []) = s ∷ []
drop_last_empty (s ∷ t ∷ ss) = s ∷ drop_last_empty (t ∷ ss)

module _ (unquote : Bytes → Option Bytes) where
  -- The hunks behind `--- ` and `+++ `.
  headers_and_hunks : List Bytes → Draft → Parsed (Draft × List Bytes)
  headers_and_hunks rest d = read_hunks (suc (length rest)) rest d.entry.hunks >>= with_hunks d

  new_header : Bytes → List Bytes → Draft → Parsed (Draft × List Bytes)
  new_header old [] d = parse_failed
  new_header old (line ∷ rest) d =
      if starts line "+++ "
      then (parse_single_git_path unquote (rest_of line "+++ ") >>= λ new.
          with_headers old new d >>= headers_and_hunks rest)
      else parse_failed

  -- One round of the loop over an entry's lines: the `switch` over `line`.
  entry_line : Bytes → List Bytes → Draft → Parsed (Draft × List Bytes)
  entry_line line rest d =
      if bytes_eq line (codes "new file mode 100644")
      then ok (record d { new_file = true }, rest)
      else if bytes_eq line (codes "deleted file mode 100644")
      then ok (record d { deleted_file = true }, rest)
      else if is_skipped line
      then ok (d, rest)
      else if starts line "rename from "
      then (parse_single_git_path unquote (rest_of line "rename from ") >>= λ path.
          ok (set_rename_from d path, rest))
      else if starts line "rename to "
      then (parse_single_git_path unquote (rest_of line "rename to ") >>= λ path.
          ok (set_rename_to d path, rest))
      else if is_outside_profile line
      then unsupported
      else if starts line "--- "
      then (parse_single_git_path unquote (rest_of line "--- ") >>= λ old. new_header old rest d)
      else parse_failed

  entry_lines : ℕ → List Bytes → Draft → Parsed (Draft × List Bytes)
  entry_lines zero lines d = err out_of_fuel
  entry_lines (suc fuel) [] d = ok (d, [])
  entry_lines (suc fuel) (line ∷ rest) d =
      if has_prefix line diff_git
      then ok (d, line ∷ rest)
      else (entry_line line rest d >>= λ next. entry_lines fuel next.1 next.0)

  -- One entry: its first line is taken apart, then its lines, then it is classified.
  entry_at : Bytes → List Bytes → Parsed (Entry × List Bytes)
  entry_at line rest = parse_diff_git_paths unquote (cut line diff_git) >>= λ paths.
      entry_lines (suc (length rest)) rest (new_draft paths) >>= λ found.
      classify found.0 >>= λ entry. ok (entry, found.1)

  entries_from : ℕ → List Bytes → List Entry → Parsed (List Entry)
  entries_from zero lines entries = err out_of_fuel
  entries_from (suc fuel) [] entries = ok entries
  entries_from (suc fuel) (line ∷ rest) entries =
      if has_prefix line diff_git
      then (entry_at line rest >>= λ found. entries_from fuel found.1 (entries ++ found.0 ∷ []))
      else parse_failed

  some_entries : List Entry → Parsed (List Entry)
  some_entries [] = parse_failed
  some_entries (e ∷ es) = ok (e ∷ es)

  unfoldable pub parse_git_patch : Bytes → Parsed (List Entry)
  unfolding entries_from entry_at entry_lines entry_line new_header headers_and_hunks some_entries
  parse_git_patch text =
      if is_blank text || has_return text
      then parse_failed
      else let lines = drop_last_empty (split_lines text) in
        entries_from (suc (length lines)) lines [] >>= some_entries
