-- ===== src/Kernel/Patch/Parser/HunkLines.antt =====
-- `parsePatchHunk` returns hunks whose headers count their lines.
use kg_os.Common.{
  ℕ, ◌+◌, ◌≤◌, Bytes, ◌∷◌, [], List, ◌++◌, Option, none, some, length, length-append, ◌≡◌, refl,
  sym, ap, ◌∙◌, ◌⊎◌, inl, inr, arith, append-nil, append_assoc, All, All-append, Lacks, Bool-cases,
}
use kg_os.Kernel.Patch.Text.{newline, AreLines}
use kg_os.Kernel.Patch.Hunks.{Line, Hunk}
use kg_os.Kernel.Patch.Hunks.Sides.{old_of, new_of, old_side, new_side}
use kg_os.Kernel.Patch.Tokens.{Parsed}
use kg_os.Kernel.Patch.Header.{Ranges, parse_hunk_header}
use kg_os.Kernel.Patch.Parser.{
  is_header, Reading, read_line, finish_hunk, after_line, read_lines, hunk_of, parse_patch_hunk,
}
use kg_os.Kernel.Patch.Parser.Ends.{Ends, Ends-bind}

-- A line of a hunk: one of the three marks, and no newline.
abbrev pub IsHunkLine : Line → Type 0
IsHunkLine l = ((l.mark ≡ b' ') ⊎ ((l.mark ≡ b'-') ⊎ (l.mark ≡ b'+'))) × Lacks newline l.content

pub record IsHunk (h : Hunk) : Type 0 where
  pub old_counted : length (old_side h.lines) ≡ h.old_count
  pub new_counted : length (new_side h.lines) ≡ h.new_count
  pub marked : All IsHunkLine h.lines

-- The counters of the loop count the lines that it has read.
record Tally (r : Reading) : Type 0 where
  old_counted : r.old_seen ≡ length (old_side r.lines)
  new_counted : r.new_seen ≡ length (new_side r.lines)
  marked : All IsHunkLine r.lines

old_side-append : (ls : List Line) (l : Line) → old_side (ls ++ l ∷ []) ≡ old_side ls ++ old_of l
old_side-append [] l = append-nil (old_of l)
old_side-append (k ∷ ls) l =
    ap (λ s. old_of k ++ s) (old_side-append ls l)
    ∙ sym (append_assoc (old_of k) (old_side ls) (old_of l))

new_side-append : (ls : List Line) (l : Line) → new_side (ls ++ l ∷ []) ≡ new_side ls ++ new_of l
new_side-append [] l = append-nil (new_of l)
new_side-append (k ∷ ls) l =
    ap (λ s. new_of k ++ s) (new_side-append ls l)
    ∙ sym (append_assoc (new_of k) (new_side ls) (new_of l))

abbrev line_of : ℕ → Bytes → Line
line_of mark content = record { mark = mark; content = content }

length-old_side-append :
    (ls : List Line) (l : Line)
    → length (old_side (ls ++ l ∷ [])) ≡ length (old_side ls) + length (old_of l)
length-old_side-append ls l =
    ap length (old_side-append ls l) ∙ length-append (old_side ls) (old_of l)

length-new_side-append :
    (ls : List Line) (l : Line)
    → length (new_side (ls ++ l ∷ [])) ≡ length (new_side ls) + length (new_of l)
length-new_side-append ls l =
    ap length (new_side-append ls l) ∙ length-append (new_side ls) (new_of l)

read_line-Tally :
    (mark : ℕ) (content : Bytes) (r : Reading)
    → Lacks newline content
    → Tally r
    → Ends Tally (read_line mark content r)
unfolding read_line
read_line-Tally mark content r h t = ground (
  arith,
  length-old_side-append r.lines (line_of mark content),
  length-new_side-append r.lines (line_of mark content),
  All-append IsHunkLine r.lines (line_of mark content ∷ []) t.marked,
)

-- What a parsed hunk leaves: at most `n` lines.
pub record Leaves (n : ℕ) (found : Hunk × List Bytes) : Type 0 where
  pub is_hunk : IsHunk found.0
  pub shorter : length found.1 ≤ n
  pub lines : AreLines found.1

finish_hunk-Leaves :
    (ranges : Ranges) (r : Reading) (rest : List Bytes) (n : ℕ)
    → Tally r
    → AreLines rest
    → length rest ≤ n
    → Ends (Leaves n) (finish_hunk ranges r rest)
unfolding finish_hunk
finish_hunk-Leaves ranges r rest n t a h = ground arith

after_line-Leaves :
    (ranges : Ranges) (rest : List Bytes) (next : Reading → Parsed (Hunk × List Bytes)) (n : ℕ)
    → AreLines rest
    → length rest ≤ n
    → ((r : Reading) → Tally r → Ends (Leaves n) (next r))
    → (r : Reading) → Tally r
    → Ends (Leaves n) (after_line ranges rest next r)
unfolding after_line
after_line-Leaves ranges rest next n a h k r t =
    ground (arith, finish_hunk-Leaves ranges r rest n t a h, k r t)

read_lines-Leaves :
    (ranges : Ranges) (lines : List Bytes) (r : Reading) (n : ℕ)
    → AreLines lines
    → length lines ≤ n
    → Tally r
    → Ends (Leaves n) (read_lines ranges lines r)
unfolding read_lines
read_lines-Leaves ranges [] r n a h t = finish_hunk-Leaves ranges r [] n t tt h
read_lines-Leaves ranges ([] ∷ rest) r n a h t = tt
read_lines-Leaves ranges ((mark ∷ content) ∷ rest) r n (a, b) h t =
    elim (Bool-cases (is_header (mark ∷ content))) [
      | inl stop ↦ rw stop (finish_hunk-Leaves ranges r ((mark ∷ content) ∷ rest) n t (a, b) h)
      | inr more ↦ rw more (
          Ends-bind Tally (Leaves n) (read_line mark content r)
            (after_line ranges rest (read_lines ranges rest)) (read_line-Tally mark content r a.1 t)
            (after_line-Leaves ranges rest (read_lines ranges rest) n b (omega arith)
              (λ r' t'. read_lines-Leaves ranges rest r' n b (omega arith) t')))
    ]

-- A hunk that is parsed counts its lines and holds no newline, and no line is added to what is
-- left.
pub parse_patch_hunk-Leaves :
    (header : Bytes) (rest : List Bytes)
    → AreLines rest
    → Ends (Leaves (length rest)) (parse_patch_hunk header rest)
unfolding parse_patch_hunk
parse_patch_hunk-Leaves header rest a = at (parse_hunk_header header)
  where
    at : (ranges : Option Ranges) → Ends (Leaves (length rest)) (hunk_of ranges rest)
    at none = unfold hunk_of in tt
    at (some ranges) =
        unfold hunk_of in
        read_lines-Leaves ranges rest (record { old_seen = 0; new_seen = 0; lines = [] })
          (length rest) a (omega arith)
          (record { old_counted = refl; new_counted = refl; marked = tt })
