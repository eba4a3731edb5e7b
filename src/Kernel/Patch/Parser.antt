-- ===== src/Kernel/Patch/Parser.antt =====
-- `parsePatchHunk` and `parseGitPatch` of internal/kernel/patch_parser.go, over the lines that are
-- left. `unquote` stands for `strconv.Unquote`.
pub mod Ends
pub mod HunkLines
use kg_os.Common.{
  ℕ, zero, suc, ◌+◌, Bytes, codes, ◌∷◌, [], List, ◌++◌, Bool, true, false, not, ◌||◌, ◌&&◌, Option,
  none, some, ok, err, ◌>>=◌, ◌>>◌, guard, if◌then◌else◌, ◌==◌, ltb, bytes_eq, length, has_prefix,
  cut, String,
}
use kg_os.Kernel.Errors.{ErrorCode}
use kg_os.Kernel.Patch.Text.{split_lines}
use kg_os.Kernel.Patch.Hunks.{Line, Hunk}
use kg_os.Kernel.Patch.Tokens.{
  Stop, code, out_of_fuel, Parsed, parse_failed, unsupported, is_empty, parse_diff_git_paths,
  parse_single_git_path, strip_git_prefix,
}
use kg_os.Kernel.Patch.Header.{Ranges, parse_hunk_header}

abbrev pub diff_git : Bytes
diff_git = codes "diff --git "

abbrev pub is_header : Bytes → Bool
is_header line = has_prefix line diff_git || has_prefix line (codes "@@ ")

-- The hunk so far, with `oldSeen` and `newSeen`.
pub record Reading : Type 0 where
  pub old_seen : ℕ
  pub new_seen : ℕ
  pub lines : List Line

-- The `switch line[0]` of `parsePatchHunk`.
unfoldable pub read_line : ℕ → Bytes → Reading → Parsed Reading
read_line mark content r =
    let more = r.lines ++ record { mark = mark; content = content } ∷ [] in
    if mark == b' '
    then ok (record { old_seen = r.old_seen + 1; new_seen = r.new_seen + 1; lines = more })
    else if mark == b'-'
    then ok (record r { old_seen = r.old_seen + 1; lines = more })
    else if mark == b'+'
    then ok (record r { new_seen = r.new_seen + 1; lines = more })
    else if mark == b'\\'
    then unsupported
    else parse_failed

-- Behind the loop: the counts must be those of the header.
unfoldable pub finish_hunk : Ranges → Reading → List Bytes → Parsed (Hunk × List Bytes)
finish_hunk ((old_start, old_count), (new_start, new_count)) r rest =
    if not (r.old_seen == old_count) || not (r.new_seen == new_count)
    then parse_failed
    else ok (
      record {
        old_start = old_start;
        old_count = old_count;
        new_start = new_start;
        new_count = new_count;
        lines = r.lines;
      },
      rest,
    )

-- What the loop does with a line that it has read, `next` being its next round.
unfoldable pub after_line :
    Ranges
    → List Bytes
    → (Reading → Parsed (Hunk × List Bytes))
    → Reading
    → Parsed (Hunk × List Bytes)
after_line ranges rest next r =
    let ((old_start, old_count), (new_start, new_count)) = ranges in
    if r.old_seen == old_count && r.new_seen == new_count
    then finish_hunk ranges r rest
    else if ltb old_count r.old_seen || ltb new_count r.new_seen
    then parse_failed
    else next r

unfoldable pub read_lines : Ranges → List Bytes → Reading → Parsed (Hunk × List Bytes)
read_lines ranges [] r = finish_hunk ranges r []
read_lines ranges ([] ∷ rest) r = parse_failed
read_lines ranges ((mark ∷ content) ∷ rest) r =
    let next = read_lines ranges rest in
    if is_header (mark ∷ content)
    then finish_hunk ranges r ((mark ∷ content) ∷ rest)
    else (read_line mark content r >>= after_line ranges rest next)

unfoldable pub hunk_of : Option Ranges → List Bytes → Parsed (Hunk × List Bytes)
hunk_of none rest = parse_failed
hunk_of (some ranges) rest =
    read_lines ranges rest (record { old_seen = 0; new_seen = 0; lines = [] })

-- `parsePatchHunk`: the hunk whose header is the first line, and the lines behind it.
unfoldable pub parse_patch_hunk : Bytes → List Bytes → Parsed (Hunk × List Bytes)
parse_patch_hunk header rest = hunk_of (parse_hunk_header header) rest

pub data Operation : Type 0 where
  update add delete rename : Operation

-- `patchEntry`; an absent path is empty.
pub record Entry : Type 0 where
  pub operation : Operation
  pub old_target : Bytes
  pub new_target : Bytes
  pub rename_from : Bytes
  pub rename_to : Bytes
  pub hunks : List Hunk

-- The variables of the loop over an entry's lines.
pub record Draft : Type 0 where
  pub entry : Entry
  pub new_file : Bool
  pub deleted_file : Bool
  pub file_headers : Bool
  pub old_dev_null : Bool
  pub new_dev_null : Bool

abbrev pub dev_null : Bytes
dev_null = codes "/dev/null"

abbrev pub starts : Bytes → String → Bool
starts line text = has_prefix line (codes text)

-- The hunks behind a file header.
unfoldable pub read_hunks : ℕ → List Bytes → List Hunk → Parsed (List Hunk × List Bytes)
read_hunks zero lines hunks = err out_of_fuel
read_hunks (suc fuel) [] hunks = ok (hunks, [])
read_hunks (suc fuel) (line ∷ rest) hunks =
    if starts line "@@ "
    then (parse_patch_hunk line rest >>= λ found. read_hunks fuel found.1 (hunks ++ found.0 ∷ []))
    else ok (hunks, line ∷ rest)

-- The flags behind the two file headers, once their paths are checked.
unfoldable pub with_headers : Bytes → Bytes → Draft → Parsed Draft
with_headers old new d =
    if not (bytes_eq old dev_null)
      && not (bytes_eq (strip_git_prefix old (codes "a/")) d.entry.old_target)
    then parse_failed
    else if not (bytes_eq new dev_null)
        && not (bytes_eq (strip_git_prefix new (codes "b/")) d.entry.new_target)
    then parse_failed
    else ok (record d {
      file_headers = true;
      new_file = d.new_file || bytes_eq old dev_null;
      old_dev_null = d.old_dev_null || bytes_eq old dev_null;
      deleted_file = d.deleted_file || bytes_eq new dev_null;
      new_dev_null = d.new_dev_null || bytes_eq new dev_null;
    })

unfoldable pub with_hunks : Draft → List Hunk × List Bytes → Parsed (Draft × List Bytes)
with_hunks d (hunks, rest) = ok (record d { entry = record d.entry { hunks = hunks } }, rest)

abbrev pub no_hunks : List Hunk → Bool
no_hunks [] = true
no_hunks (h ∷ hs) = false

-- The cases of the `switch` behind the loop over an entry's lines.
unfoldable pub add_entry : Draft → Parsed Entry
add_entry d =
    if not d.file_headers || not d.old_dev_null || d.new_dev_null || no_hunks d.entry.hunks
    then parse_failed
    else ok (record d.entry { operation = add })

unfoldable pub delete_entry : Draft → Parsed Entry
delete_entry d =
    if not d.file_headers || d.old_dev_null || not d.new_dev_null || no_hunks d.entry.hunks
    then parse_failed
    else ok (record d.entry { operation = delete })

unfoldable pub rename_entry : Draft → Parsed Entry
rename_entry d =
    if is_empty d.entry.rename_from
      || is_empty d.entry.rename_to
      || not (bytes_eq d.entry.rename_from d.entry.old_target)
      || not (bytes_eq d.entry.rename_to d.entry.new_target)
    then parse_failed
    else ok (record d.entry { operation = rename })

unfoldable pub update_entry : Draft → Parsed Entry
update_entry d =
    if not (bytes_eq d.entry.old_target d.entry.new_target) || not d.file_headers
    then parse_failed
    else ok (record d.entry { operation = update })

unfoldable pub classify : Draft → Parsed Entry
classify d =
    if d.new_file && d.deleted_file
    then parse_failed
    else if d.new_file
    then add_entry d
    else if d.deleted_file
    then delete_entry d
    else if not (is_empty d.entry.rename_from) || not (is_empty d.entry.rename_to)
    then rename_entry d
    else if not (no_hunks d.entry.hunks)
    then update_entry d
    else unsupported
