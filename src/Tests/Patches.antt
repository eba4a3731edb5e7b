-- ===== src/Tests/Patches.antt =====
-- Patches: internal/kernel/patch_parser.go.
use kg_os.Common.{
  Bytes, codes, ◌∷◌, [], List, ◌++◌, Option, some, ok, ◌≡◌, refl, ◌≢◌, ◌↔◌, arith, map, All, String,
  bytes_eq, has_prefix, cut, utf8_valid, parse_uint,
}
use kg_os.Kernel.Patch.Text.{
  IsDocument, document_lines, split_lines, join_lines, ends_line, without_last, render_lines,
}
use kg_os.Kernel.Patch.Hunks.{Hunk, Line, apply_exact_hunks, apply_hunks}
use kg_os.Kernel.Patch.Hunks.Sides.{Patched}
use kg_os.Kernel.Patch.Hunks.Decides.{apply_hunks_iff}
use kg_os.Kernel.Patch.Hunks.Inverse.{invert_hunk, apply_exact_hunks-invert}
use kg_os.Kernel.Patch.Header.{parse_hunk_header}
use kg_os.Kernel.Patch.Tokens.{
  strip_git_prefix, parse_single_git_path, parse_diff_git_paths, split_git_tokens,
}
use kg_os.Kernel.Patch.Parser.{
  update, read_hunks, read_lines, read_line, finish_hunk, after_line, hunk_of, parse_patch_hunk,
  with_headers, with_hunks, classify, update_entry,
}
use kg_os.Kernel.Patch.Parser.Ends.{Ends}
use kg_os.Kernel.Patch.Document.{parse_git_patch, new_draft, is_blank, has_return, drop_last_empty}
use kg_os.Kernel.Patch.Document.Accepts.{parse_git_patch-IsEntry}
use kg_os.Kernel.Patch.Document.Entries.{IsEntry}

abbrev keep : String → Line
keep s = record { mark = b' '; content = codes s }

abbrev remove : String → Line
remove s = record { mark = b'-'; content = codes s }

abbrev insert : String → Line
insert s = record { mark = b'+'; content = codes s }

-- name: a, title: b, and the title changes.
abbrev retitle : Hunk
retitle = record {
  old_start = 1;
  old_count = 2;
  new_start = 1;
  new_count = 2;
  lines = keep "name: a" ∷ remove "title: b" ∷ insert "title: c" ∷ [];
}

abbrev before : Bytes
before = codes "name: a\ntitle: b\nend: 1\n"

abbrev after : Bytes
after = codes "name: a\ntitle: c\nend: 1\n"

apply_test : apply_exact_hunks before (retitle ∷ []) ≡ ok after
unfolding apply_exact_hunks document_lines split_lines ends_line without_last render_lines
    join_lines bytes_eq
apply_test = refl

apply_exact_hunks-invert_example :
    IsDocument after × (apply_exact_hunks after (map invert_hunk (retitle ∷ [])) ≡ ok before)
unfolding ends_line
apply_exact_hunks-invert_example =
    apply_exact_hunks-invert before after (retitle ∷ []) refl (ground arith) apply_test

abbrev lines_before : List Bytes
lines_before = codes "name: a" ∷ codes "title: b" ∷ []

abbrev lines_after : List Bytes
lines_after = codes "name: a" ∷ codes "title: c" ∷ []

apply_hunks_iff_example :
    (apply_hunks lines_before (retitle ∷ []) (0, []) ≡ ok lines_after)
    ↔ Patched 0 0 (retitle ∷ []) lines_before lines_after
apply_hunks_iff_example = apply_hunks_iff lines_before (retitle ∷ []) lines_after

-- A `strconv.Unquote` for texts with no escape.
abbrev without_first : Bytes → Bytes
without_first [] = []
without_first (c ∷ s) = s

unquote : Bytes → Option Bytes
unfolding without_last
unquote s = some (without_first (without_last s))

abbrev patch : Bytes
patch =
    codes "diff --git a/node:A b/node:A\n--- a/node:A\n+++ b/node:A\n"
    ++ codes "@@ -1,2 +1,2 @@\n name: a\n-title: b\n+title: c\n"

parse_test :
    parse_git_patch unquote patch
    ≡ ok (
        record {
          operation = update;
          old_target = codes "node:A";
          new_target = codes "node:A";
          rename_from = [];
          rename_to = [];
          hunks = retitle ∷ [];
        }
        ∷ [])
unfolding parse_git_patch new_draft is_blank has_return drop_last_empty split_lines bytes_eq
    has_prefix cut utf8_valid parse_uint parse_hunk_header strip_git_prefix parse_single_git_path
    parse_diff_git_paths split_git_tokens read_hunks parse_patch_hunk hunk_of read_lines after_line
    read_line finish_hunk with_headers with_hunks classify update_entry
parse_test = refl

parse_git_patch-IsEntry_example :
    Ends (λ es. (es ≢ []) × All IsEntry es) (parse_git_patch unquote patch)
parse_git_patch-IsEntry_example = parse_git_patch-IsEntry unquote patch
