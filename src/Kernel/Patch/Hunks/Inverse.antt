-- ===== src/Kernel/Patch/Hunks/Inverse.antt =====
-- Patches with their two sides exchanged: applyExactHunks of internal/kernel/patch_parser.go.
use kg_os.Common.{
  ℕ, Bytes, ◌∷◌, [], List, ◌++◌, ok, >>=-eq-ok, if◌then◌else◌, ◌==◌, length, ◌≡◌, refl, sym, ap,
  ap₂, ◌∙◌, subst, arith, map, All, All-append, Lacks,
}
use kg_os.Kernel.Patch.Text.{
  newline, IsDocument, AreLines, document_lines, render_lines, document_lines-AreLines,
  render_lines-IsDocument, document_lines-render_lines, render_lines-document_lines,
}
use kg_os.Kernel.Patch.Hunks.{Line, Hunk, apply_hunks, rendered, apply_exact_hunks}
use kg_os.Kernel.Patch.Hunks.Sides.{old_of, new_of, old_side, new_side, Fits, Patched, done, hunk}
use kg_os.Kernel.Patch.Hunks.Decides.{apply_hunks_iff}

-- A removal for an addition, and the other way round.
abbrev pub invert_line : Line → Line
invert_line l =
    if l.mark == b'-'
    then record l { mark = b'+' }
    else if l.mark == b'+'
    then record l { mark = b'-' }
    else l

abbrev pub invert_hunk : Hunk → Hunk
invert_hunk h = record {
  old_start = h.new_start;
  old_count = h.new_count;
  new_start = h.old_start;
  new_count = h.old_count;
  lines = map invert_line h.lines;
}

old_of-invert : (l : Line) → old_of (invert_line l) ≡ new_of l
old_of-invert l = ground arith

new_of-invert : (l : Line) → new_of (invert_line l) ≡ old_of l
new_of-invert l = ground arith

old_side-invert : (ls : List Line) → old_side (map invert_line ls) ≡ new_side ls
old_side-invert [] = refl
old_side-invert (l ∷ ls) = ap₂ ◌++◌ (old_of-invert l) (old_side-invert ls)

new_side-invert : (ls : List Line) → new_side (map invert_line ls) ≡ old_side ls
new_side-invert [] = refl
new_side-invert (l ∷ ls) = ap₂ ◌++◌ (new_of-invert l) (new_side-invert ls)

Fits-invert : {i o : ℕ} (h : Hunk) → Fits i o h → Fits o i (invert_hunk h)
Fits-invert h f = record {
  old_place = f.new_place;
  new_place = f.old_place;
  old_counted = ap length (old_side-invert h.lines) ∙ f.new_counted;
  new_counted = ap length (new_side-invert h.lines) ∙ f.old_counted;
}

-- The relation is symmetric.
pub Patched-invert :
    {i o : ℕ} {hs : List Hunk} {old new : List Bytes}
    → Patched i o hs old new
    → Patched o i (map invert_hunk hs) new old
Patched-invert (done rest) = done rest
Patched-invert (hunk {h} gap old' new' f split joined more) =
    hunk gap new' old' (Fits-invert h f)
      (joined ∙ ap (λ s. gap ++ (s ++ new')) (sym (old_side-invert h.lines)))
      (split ∙ ap (λ s. gap ++ (s ++ old')) (sym (new_side-invert h.lines)))
      (rw (old_side-invert h.lines, new_side-invert h.lines) (Patched-invert more))

-- No line of a hunk holds a newline.
abbrev pub HasLines : Hunk → Type 0
HasLines h = All (λ l. Lacks newline l.content) h.lines

new_side-AreLines :
    (ls : List Line) → All (λ l. Lacks newline l.content) ls → AreLines (new_side ls)
new_side-AreLines [] h = tt
new_side-AreLines (l ∷ ls) (h, k) =
    All-append (Lacks newline) (new_of l) (new_side ls) (ground arith) (new_side-AreLines ls k)

AreLines-of_append : (ss ts : List Bytes) → AreLines (ss ++ ts) → AreLines ss × AreLines ts
AreLines-of_append [] ts h = (tt, h)
AreLines-of_append (s ∷ ss) ts (h, k) = let (a, b) = AreLines-of_append ss ts k in ((h, a), b)

Patched-AreLines :
    {i o : ℕ} {hs : List Hunk} {old new : List Bytes}
    → Patched i o hs old new
    → All HasLines hs
    → AreLines old
    → AreLines new
Patched-AreLines (done rest) h k = k
Patched-AreLines (hunk {h} gap old' new' f split joined more) (here, later) k =
    let (kept, behind) =
      AreLines-of_append gap (old_side h.lines ++ old') (subst AreLines split k) in
    let rest = (AreLines-of_append (old_side h.lines) old' behind).1 in
    subst AreLines (sym joined) (
      All-append (Lacks newline) gap (new_side h.lines ++ new') kept (
        All-append (Lacks newline) (new_side h.lines) new' (new_side-AreLines h.lines here)
          (Patched-AreLines more later rest)))

-- A patch that applies to a canonical document gives a canonical document, and its inverse
-- applies to that and gives the first document back.
pub apply_exact_hunks-invert :
    (base out : Bytes) (hunks : List Hunk)
    → IsDocument base
    → All HasLines hunks
    → apply_exact_hunks base hunks ≡ ok out
    → IsDocument out × (apply_exact_hunks out (map invert_hunk hunks) ≡ ok base)
unfolding apply_exact_hunks rendered
apply_exact_hunks-invert base out hunks d h e =
    let (new, applied, text) =
      >>=-eq-ok (apply_hunks (document_lines base) hunks (0, [])) rendered e in
    let p = (apply_hunks_iff (document_lines base) hunks new).0 applied in
    let same : render_lines new ≡ out = cc in
    let lines = Patched-AreLines p h (document_lines-AreLines base) in
    let read : document_lines out ≡ new =
      ap document_lines (sym same) ∙ document_lines-render_lines new lines in
    let back =
      (apply_hunks_iff new (map invert_hunk hunks) (document_lines base)).1 (Patched-invert p) in
    (
      subst IsDocument same (render_lines-IsDocument new),
      rw (read, back) (ap ok (render_lines-document_lines base d)),
    )
