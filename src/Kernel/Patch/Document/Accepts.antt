-- ===== src/Kernel/Patch/Document/Accepts.antt =====
-- `parseGitPatch` ends on every text, and what it returns is well formed.
use kg_os.Common.{
  ℕ, ◌≤◌, ◌<◌, zero, suc, Bytes, ◌∷◌, [], List, ◌++◌, Option, ok, ◌>>=◌, length, ◌≢◌, ◌||◌, arith,
  All, All-append, Bool-cases, inl, inr, has_prefix, cut,
}
use kg_os.Kernel.Patch.Text.{AreLines, split_lines, split_lines-AreLines}
use kg_os.Kernel.Patch.Tokens.{parse_diff_git_paths, parse_single_git_path}
use kg_os.Kernel.Patch.Tokens.TokenEnds.{Any, parse_single_git_path-Ends, parse_diff_git_paths-Ends}
use kg_os.Kernel.Patch.Parser.{
  diff_git, Entry, Draft, starts, read_hunks, with_headers, with_hunks, classify,
}
use kg_os.Kernel.Patch.Parser.Ends.{Ends, Ends-bind}
use kg_os.Kernel.Patch.Parser.HunkLines.{IsHunk}
use kg_os.Kernel.Patch.Document.{
  rest_of, set_rename_from, set_rename_to, new_draft, is_blank, has_return, drop_last_empty,
  headers_and_hunks, new_header, entry_line, entry_lines, entry_at, entries_from, some_entries,
  parse_git_patch,
}
use kg_os.Kernel.Patch.Document.Entries.{IsEntry, classify-IsEntry, HunksLeave, read_hunks-Leave}

abbrev HasHunks : Draft → Type 0
HasHunks d = All IsHunk d.entry.hunks

-- A draft with well-formed hunks, and at most `n` lines that are left.
record DraftLeaves (n : ℕ) (found : Draft × List Bytes) : Type 0 where
  hunks : HasHunks found.0
  shorter : length found.1 ≤ n
  lines : AreLines found.1

record EntryLeaves (n : ℕ) (found : Entry × List Bytes) : Type 0 where
  entry : IsEntry found.0
  shorter : length found.1 ≤ n
  lines : AreLines found.1

with_headers-HasHunks :
    (old new : Bytes) (d : Draft) → HasHunks d → Ends HasHunks (with_headers old new d)
unfolding with_headers
with_headers-HasHunks old new d h = ground arith

module _ (unquote : Bytes → Option Bytes) where
  headers_and_hunks-Leave :
      (rest : List Bytes) (d : Draft) (n : ℕ)
      → length rest ≤ n
      → AreLines rest
      → HasHunks d
      → Ends (DraftLeaves n) (headers_and_hunks unquote rest d)
  unfolding headers_and_hunks with_hunks
  headers_and_hunks-Leave rest d n h a k =
      Ends-bind (HunksLeave n) (DraftLeaves n) (read_hunks (suc (length rest)) rest d.entry.hunks)
        (with_hunks d)
        (read_hunks-Leave (suc (length rest)) rest d.entry.hunks n (omega arith) h a k)
        (λ found v. record { hunks = v.hunks; shorter = v.shorter; lines = v.lines })

  new_header-Leave :
      (old : Bytes) (lines : List Bytes) (d : Draft) (n : ℕ)
      → length lines ≤ n
      → AreLines lines
      → HasHunks d
      → Ends (DraftLeaves n) (new_header unquote old lines d)
  unfolding new_header
  new_header-Leave old [] d n h a k = tt
  new_header-Leave old (line ∷ rest) d n h (a, b) k = elim (Bool-cases (starts line "+++ ")) [
    | inr other ↦ rw other tt
    | inl found ↦ rw found (
        Ends-bind Any (DraftLeaves n) (parse_single_git_path unquote (rest_of line "+++ "))
          (λ new. with_headers old new d >>= headers_and_hunks unquote rest)
          (parse_single_git_path-Ends unquote (rest_of line "+++ "))
          (λ new _.
            Ends-bind HasHunks (DraftLeaves n) (with_headers old new d)
              (headers_and_hunks unquote rest) (with_headers-HasHunks old new d k)
              (λ d' k'. headers_and_hunks-Leave rest d' n (omega arith) b k')))
  ]

  entry_line-Leave :
      (line : Bytes) (rest : List Bytes) (d : Draft)
      → AreLines rest
      → HasHunks d
      → Ends (DraftLeaves (length rest)) (entry_line unquote line rest d)
  unfolding entry_line
  entry_line-Leave line rest d a k =
      let from : Ends (DraftLeaves (length rest)) (
          parse_single_git_path unquote (rest_of line "rename from ") >>= λ path.
          ok (set_rename_from d path, rest)) =
        Ends-bind Any (DraftLeaves (length rest))
          (parse_single_git_path unquote (rest_of line "rename from ")) _
          (parse_single_git_path-Ends unquote (rest_of line "rename from "))
          (λ path _. record { hunks = k; shorter = omega arith; lines = a }) in
      let to : Ends (DraftLeaves (length rest)) (
          parse_single_git_path unquote (rest_of line "rename to ") >>= λ path.
          ok (set_rename_to d path, rest)) =
        Ends-bind Any (DraftLeaves (length rest))
          (parse_single_git_path unquote (rest_of line "rename to ")) _
          (parse_single_git_path-Ends unquote (rest_of line "rename to "))
          (λ path _. record { hunks = k; shorter = omega arith; lines = a }) in
      let headers : Ends (DraftLeaves (length rest)) (
          parse_single_git_path unquote (rest_of line "--- ") >>= λ old.
          new_header unquote old rest d) =
        Ends-bind Any (DraftLeaves (length rest))
          (parse_single_git_path unquote (rest_of line "--- ")) _
          (parse_single_git_path-Ends unquote (rest_of line "--- "))
          (λ old _. new_header-Leave old rest d (length rest) (omega arith) a k) in
      ground arith

  entry_lines-Leave :
      (fuel : ℕ) (lines : List Bytes) (d : Draft) (n : ℕ)
      → length lines < fuel
      → length lines ≤ n
      → AreLines lines
      → HasHunks d
      → Ends (DraftLeaves n) (entry_lines unquote fuel lines d)
  unfolding entry_lines
  entry_lines-Leave zero lines d n f h a k = absurd (omega arith)
  entry_lines-Leave (suc fuel) [] d n f h a k = record {
    hunks = k;
    shorter = omega arith;
    lines = tt;
  }
  entry_lines-Leave (suc fuel) (line ∷ rest) d n f h (a, b) k =
      elim (Bool-cases (has_prefix line diff_git)) [
        | inl stop ↦ rw stop (record { hunks = k; shorter = h; lines = (a, b) })
        | inr more ↦ rw more (
            Ends-bind (DraftLeaves (length rest)) (DraftLeaves n) (entry_line unquote line rest d)
              (λ next. entry_lines unquote fuel next.1 next.0) (entry_line-Leave line rest d b k)
              (λ next v.
                entry_lines-Leave fuel next.1 next.0 n (omega (arith, v.shorter))
                  (omega (arith, v.shorter)) v.lines v.hunks))
      ]

  entry_at-Leave :
      (line : Bytes) (rest : List Bytes)
      → AreLines rest
      → Ends (EntryLeaves (length rest)) (entry_at unquote line rest)
  unfolding entry_at new_draft
  entry_at-Leave line rest a =
      Ends-bind Any (EntryLeaves (length rest)) (parse_diff_git_paths unquote (cut line diff_git)) _
        (parse_diff_git_paths-Ends unquote (cut line diff_git))
        (λ paths _.
          Ends-bind (DraftLeaves (length rest)) (EntryLeaves (length rest))
            (entry_lines unquote (suc (length rest)) rest (new_draft paths)) _
            (entry_lines-Leave (suc (length rest)) rest (new_draft paths) (length rest)
              (omega arith) (omega arith) a tt)
            (λ found v.
              Ends-bind IsEntry (EntryLeaves (length rest)) (classify found.0) _
                (classify-IsEntry found.0 v.hunks)
                (λ entry w. record { entry = w; shorter = v.shorter; lines = v.lines })))

  entries_from-IsEntry :
      (fuel : ℕ) (lines : List Bytes) (entries : List Entry)
      → length lines < fuel
      → AreLines lines
      → All IsEntry entries
      → Ends (All IsEntry) (entries_from unquote fuel lines entries)
  unfolding entries_from
  entries_from-IsEntry zero lines entries f a k = absurd (omega arith)
  entries_from-IsEntry (suc fuel) [] entries f a k = k
  entries_from-IsEntry (suc fuel) (line ∷ rest) entries f (a, b) k =
      elim (Bool-cases (has_prefix line diff_git)) [
        | inr other ↦ rw other tt
        | inl found ↦ rw found (
            Ends-bind (EntryLeaves (length rest)) (All IsEntry) (entry_at unquote line rest)
              (λ found. entries_from unquote fuel found.1 (entries ++ found.0 ∷ []))
              (entry_at-Leave line rest b)
              (λ found v.
                entries_from-IsEntry fuel found.1 (entries ++ found.0 ∷ [])
                  (omega (arith, v.shorter)) v.lines
                  (All-append IsEntry entries (found.0 ∷ []) k (v.entry, tt))))
      ]

  some_entries-IsEntry :
      (es : List Entry)
      → All IsEntry es
      → Ends (λ es'. (es' ≢ []) × All IsEntry es') (some_entries unquote es)
  unfolding some_entries
  some_entries-IsEntry [] k = tt
  some_entries-IsEntry (e ∷ es) k = (λ h. cc, k)

drop_last_empty-AreLines : (ss : List Bytes) → AreLines ss → AreLines (drop_last_empty ss)
unfolding drop_last_empty
drop_last_empty-AreLines [] h = tt
drop_last_empty-AreLines ([] ∷ []) h = tt
drop_last_empty-AreLines ((c ∷ s) ∷ []) h = h
drop_last_empty-AreLines ([] ∷ t ∷ ss) (h, k) = (h, drop_last_empty-AreLines (t ∷ ss) k)
drop_last_empty-AreLines ((c ∷ s) ∷ t ∷ ss) (h, k) = (h, drop_last_empty-AreLines (t ∷ ss) k)

-- On every text, and whatever `strconv.Unquote` answers, the parser ends with an error of the
-- source or with entries. There is then at least one, and each is well formed: it has the hunks
-- and paths that its operation needs, and each hunk's header counts the hunk's lines, which have
-- one of the three marks and hold no newline.
pub parse_git_patch-IsEntry :
    (unquote : Bytes → Option Bytes) (text : Bytes)
    → Ends (λ es. (es ≢ []) × All IsEntry es) (parse_git_patch unquote text)
unfolding parse_git_patch
parse_git_patch-IsEntry unquote text =
    let lines = drop_last_empty (split_lines text) in
    let entries =
      entries_from-IsEntry unquote (suc (length lines)) lines [] (omega arith)
        (drop_last_empty-AreLines (split_lines text) (split_lines-AreLines text)) tt in
    elim (Bool-cases (is_blank text || has_return text)) [
      | inl refused ↦ rw refused tt
      | inr read ↦ rw read (
          Ends-bind (All IsEntry) _ (entries_from unquote (suc (length lines)) lines [])
            (some_entries unquote) entries (some_entries-IsEntry unquote))
    ]
