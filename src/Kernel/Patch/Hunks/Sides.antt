-- ===== src/Kernel/Patch/Hunks/Sides.antt =====
-- What it means that hunks turn one list of lines into another.
use kg_os.Common.{
  ℕ, ◌+◌, suc, Bytes, ◌∷◌, [], List, ◌++◌, ◌||◌, if◌then◌else◌, ◌==◌, length, ◌≡◌, ◌⊎◌,
}
use kg_os.Kernel.Patch.Hunks.{Line, Hunk}

-- What a line contributes to the old text, and to the new one.
abbrev pub old_of : Line → List Bytes
old_of l = if l.mark == b' ' || l.mark == b'-' then l.content ∷ [] else []

abbrev pub new_of : Line → List Bytes
new_of l = if l.mark == b' ' || l.mark == b'+' then l.content ∷ [] else []

abbrev pub old_side : List Line → List Bytes
old_side [] = []
old_side (l ∷ ls) = old_of l ++ old_side ls

abbrev pub new_side : List Line → List Bytes
new_side [] = []
new_side (l ∷ ls) = new_of l ++ new_side ls

-- A start in a header counts lines from 1, and 0 names the first place too.
abbrev pub IsPlace : ℕ → ℕ → Type 0
IsPlace start p = ((start ≡ 0) × (p ≡ 0)) ⊎ (start ≡ suc p)

-- A hunk that stands behind `i` lines of the old text and `o` lines of the new one, and whose
-- header counts its lines.
pub record Fits (i o : ℕ) (h : Hunk) : Type 0 where
  pub old_place : IsPlace h.old_start i
  pub new_place : IsPlace h.new_start o
  pub old_counted : length (old_side h.lines) ≡ h.old_count
  pub new_counted : length (new_side h.lines) ≡ h.new_count

-- From line `i` of the old text and line `o` of the new one on, the hunks turn `old` into `new`:
-- a gap that both share, then the two sides of the first hunk, then the rest.
pub data Patched : ℕ → ℕ → List Hunk → List Bytes → List Bytes → Type 0 where
  done : {i o : ℕ} (rest : List Bytes) → Patched i o [] rest rest
  hunk :
      {i o : ℕ} {h : Hunk} {hs : List Hunk} {old new : List Bytes} (gap old' new' : List Bytes)
      → Fits (i + length gap) (o + length gap) h
      → old ≡ gap ++ (old_side h.lines ++ old')
      → new ≡ gap ++ (new_side h.lines ++ new')
      → Patched
          (i + length gap + length (old_side h.lines))
          (o + length gap + length (new_side h.lines))
          hs
          old'
          new'
      → Patched i o (h ∷ hs) old new
