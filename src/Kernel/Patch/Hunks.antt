-- ===== src/Kernel/Patch/Hunks.antt =====
-- `applyExactHunks` of internal/kernel/patch_parser.go. A line of a hunk is not empty (the parser
-- checks it): it is its first byte, the mark, with the content behind it.
pub mod Sides
pub mod Lines
pub mod Decides
pub mod Inverse
use kg_os.Common.{
  ℕ, ◌+◌, ◌-◌, Bytes, ◌∷◌, [], List, ◌++◌, Bool, not, ◌||◌, ◌&&◌, Option, none, some, Outcome, ok,
  err, ◌>>=◌, if◌then◌else◌, ltb, leb, ◌==◌, bytes_eq, length, get_elem?, take, drop,
}
use kg_os.Kernel.Errors.{Result, ErrorCode}
use kg_os.Kernel.Patch.Text.{document_lines, render_lines}

pub record Line : Type 0 where
  pub mark : ℕ
  pub content : Bytes

-- `patchHunk`. The numbers are those of the header, which has no sign.
pub record Hunk : Type 0 where
  pub old_start : ℕ
  pub old_count : ℕ
  pub new_start : ℕ
  pub new_count : ℕ
  pub lines : List Line

-- The variables of the loops: `baseIndex`, `output`, and in a hunk `oldUsed` and `newUsed`.
pub record Cursor : Type 0 where
  pub index : ℕ
  pub output : List Bytes
  pub old_used : ℕ
  pub new_used : ℕ

abbrev pub mismatch {ℓ} : {A : Type ℓ} → Result A
mismatch = err ErrorCode.patch_base_mismatch

-- `baseIndex < len(baseLines) && baseLines[baseIndex] == content`.
abbrev pub matches : Option Bytes → Bytes → Bool
matches none content = Bool.false
matches (some line) content = bytes_eq line content

unfoldable pub apply_line : List Bytes → Line → Cursor → Result Cursor
apply_line base line c =
    if line.mark == b' '
    then if matches (get_elem? base c.index) line.content
      then ok (record {
        index = c.index + 1;
        output = c.output ++ line.content ∷ [];
        old_used = c.old_used + 1;
        new_used = c.new_used + 1;
      })
      else mismatch
    else if line.mark == b'-'
    then if matches (get_elem? base c.index) line.content
      then ok (record c { index = c.index + 1; old_used = c.old_used + 1 })
      else mismatch
    else if line.mark == b'+'
    then ok (record c { output = c.output ++ line.content ∷ []; new_used = c.new_used + 1 })
    else ok c

unfoldable pub apply_lines : List Bytes → List Line → Cursor → Result Cursor
apply_lines base [] c = ok c
apply_lines base (line ∷ lines) c = apply_line base line c >>= apply_lines base lines

-- `hunk.OldStart - 1`, or 0 where the header says 0.
abbrev pub position_of : Hunk → ℕ
position_of h = if h.old_start == 0 then 0 else h.old_start - 1

unfoldable pub check_counts : Hunk → Cursor → Result (ℕ × List Bytes)
check_counts h c =
    if not (c.old_used == h.old_count) || not (c.new_used == h.new_count)
    then mismatch
    else ok (c.index, c.output)

-- One round of the loop over the hunks.
unfoldable pub apply_hunk : List Bytes → Hunk → ℕ → List Bytes → Result (ℕ × List Bytes)
apply_hunk base h index output =
    let position = position_of h in
    if ltb position index || ltb (length base) position
    then mismatch
    else let copied = output ++ take (position - index) (drop index base) in
      if ltb 0 h.new_start && not (h.new_start - 1 == length copied)
      then mismatch
      else if h.new_start == 0 && not (length copied == 0)
      then mismatch
      else apply_lines base h.lines
          (record { index = position; output = copied; old_used = 0; new_used = 0 })
        >>= check_counts h

unfoldable pub apply_hunks : List Bytes → List Hunk → ℕ × List Bytes → Result (List Bytes)
apply_hunks base [] (index, output) = ok (output ++ drop index base)
apply_hunks base (h ∷ hunks) (index, output) =
    apply_hunk base h index output >>= apply_hunks base hunks

unfoldable pub rendered : List Bytes → Result Bytes
rendered output = ok (render_lines output)

unfoldable pub apply_exact_hunks : Bytes → List Hunk → Result Bytes
unfolding apply_hunks apply_hunk apply_lines apply_line check_counts document_lines render_lines
    rendered
apply_exact_hunks base hunks = apply_hunks (document_lines base) hunks (0, []) >>= rendered
