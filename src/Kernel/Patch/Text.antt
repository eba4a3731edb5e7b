-- ===== src/Kernel/Patch/Text.antt =====
-- Lines of a document: `strings.Split`, `strings.Join` and `documentLines` of
-- internal/kernel/patch_parser.go.
use kg_os.Common.{
  ℕ, Bytes, ◌∷◌, [], List, ◌++◌, Bool, true, false, if◌then◌else◌, ◌==◌, ◌≡◌, refl, ap, ◌∙◌, ◌≢◌,
  arith, Lacks, All, Bool-cases, inl, inr,
}

abbrev pub newline : ℕ
newline = b'\n'

abbrev onto_first : ℕ → List Bytes → List Bytes
onto_first c [] = (c ∷ []) ∷ []
onto_first c (s ∷ ss) = (c ∷ s) ∷ ss

-- `strings.Split(s, "\n")`: never empty.
unfoldable pub split_lines : Bytes → List Bytes
split_lines [] = [] ∷ []
split_lines (c ∷ s) =
    let rest = split_lines s in if c == newline then [] ∷ rest else onto_first c rest

-- `strings.Join(lines, "\n")`.
unfoldable pub join_lines : List Bytes → Bytes
join_lines [] = []
join_lines (s ∷ []) = s
join_lines (s ∷ t ∷ ss) = s ++ newline ∷ join_lines (t ∷ ss)

-- `strings.HasSuffix(s, "\n")`.
unfoldable pub ends_line : Bytes → Bool
ends_line [] = false
ends_line (c ∷ []) = c == newline
ends_line (c ∷ d ∷ s) = ends_line (d ∷ s)

-- The text without its last byte.
unfoldable pub without_last : Bytes → Bytes
without_last [] = []
without_last (c ∷ []) = []
without_last (c ∷ d ∷ s) = c ∷ without_last (d ∷ s)

unfoldable pub document_lines : Bytes → List Bytes
document_lines [] = []
document_lines (c ∷ s) =
    if ends_line (c ∷ s) then split_lines (without_last (c ∷ s)) else split_lines (c ∷ s)

-- The text that `applyExactHunks` returns for its lines.
unfoldable pub render_lines : List Bytes → Bytes
render_lines [] = []
render_lines (s ∷ ss) = join_lines (s ∷ ss) ++ newline ∷ []

-- A canonical document is empty or ends with a newline.
abbrev pub IsDocument : Bytes → Type 0
IsDocument [] = Unit
IsDocument (c ∷ s) = ends_line (c ∷ s) ≡ true

abbrev pub AreLines : List Bytes → Type 0
AreLines = All (Lacks newline)

split_lines-ne-nil : (s : Bytes) → split_lines s ≢ []
unfolding split_lines
split_lines-ne-nil [] e = cc
split_lines-ne-nil (c ∷ s) e = ground arith

pub split_lines-AreLines : (s : Bytes) → AreLines (split_lines s)
unfolding split_lines
split_lines-AreLines [] = (tt, tt)
split_lines-AreLines (c ∷ s) = ground (arith, split_lines-AreLines s)

pub document_lines-AreLines : (s : Bytes) → AreLines (document_lines s)
unfolding document_lines
document_lines-AreLines [] = tt
document_lines-AreLines (c ∷ s) =
    ground (arith, split_lines-AreLines (without_last (c ∷ s)), split_lines-AreLines (c ∷ s))

join-onto_first :
    (c : ℕ) (ss : List Bytes) → ss ≢ [] → join_lines (onto_first c ss) ≡ c ∷ join_lines ss
unfolding join_lines
join-onto_first c [] h = absurd (h refl)
join-onto_first c (s ∷ []) h = refl
join-onto_first c (s ∷ t ∷ ss) h = refl

join_lines-nil : (ss : List Bytes) → ss ≢ [] → join_lines ([] ∷ ss) ≡ newline ∷ join_lines ss
unfolding join_lines
join_lines-nil [] h = absurd (h refl)
join_lines-nil (s ∷ ss) h = refl

-- Splitting a text and joining the lines gives the text back.
pub join_lines-split_lines : (s : Bytes) → join_lines (split_lines s) ≡ s
unfolding split_lines
join_lines-split_lines [] = unfold join_lines in refl
join_lines-split_lines (c ∷ s) = elim (Bool-cases (c == newline)) [
  | inl stop ↦ rw stop (
      ground
        (arith, join_lines-nil (split_lines s) (split_lines-ne-nil s), join_lines-split_lines s))
  | inr more ↦ rw more (
      ground
        (arith, join-onto_first c (split_lines s) (split_lines-ne-nil s), join_lines-split_lines s))
]

split_lines-line : (s : Bytes) → Lacks newline s → split_lines s ≡ s ∷ []
unfolding split_lines
split_lines-line [] h = refl
split_lines-line (c ∷ s) (h, k) = ground (arith, split_lines-line s k)

split_lines-append :
    (s t : Bytes) → Lacks newline s → split_lines (s ++ newline ∷ t) ≡ s ∷ split_lines t
unfolding split_lines
split_lines-append [] t h = refl
split_lines-append (c ∷ s) t (h, k) = rw (h, split_lines-append s t k)

-- Joining lines and splitting the text gives the lines back.
pub split_lines-join_lines :
    (s : Bytes) (ss : List Bytes) → AreLines (s ∷ ss) → split_lines (join_lines (s ∷ ss)) ≡ s ∷ ss
unfolding join_lines
split_lines-join_lines s [] (h, k) = split_lines-line s h
split_lines-join_lines s (t ∷ ss) (h, k) =
    split_lines-append s (join_lines (t ∷ ss)) h ∙ ap (λ r. s ∷ r) (split_lines-join_lines t ss k)

ends_line-append : (s : Bytes) → ends_line (s ++ newline ∷ []) ≡ true
unfolding ends_line
ends_line-append [] = refl
ends_line-append (c ∷ []) = refl
ends_line-append (c ∷ d ∷ s) = ends_line-append (d ∷ s)

without_last-append : (s : Bytes) → without_last (s ++ newline ∷ []) ≡ s
unfolding without_last
without_last-append [] = refl
without_last-append (c ∷ []) = refl
without_last-append (c ∷ d ∷ s) = ap (λ r. c ∷ r) (without_last-append (d ∷ s))

append-without_last : (s : Bytes) → ends_line s ≡ true → without_last s ++ newline ∷ [] ≡ s
unfolding ends_line without_last
append-without_last [] h = cc
append-without_last (c ∷ []) h = ground arith
append-without_last (c ∷ d ∷ s) h = ap (λ r. c ∷ r) (append-without_last (d ∷ s) h)

document_lines_of_ends_line :
    (s : Bytes) → ends_line s ≡ true → document_lines s ≡ split_lines (without_last s)
unfolding document_lines
document_lines_of_ends_line [] h = unfold ends_line in cc
document_lines_of_ends_line (c ∷ s) h = rw h

-- The lines of a rendered document are the lines that were rendered.
pub document_lines-render_lines :
    (ss : List Bytes) → AreLines ss → document_lines (render_lines ss) ≡ ss
unfolding render_lines
document_lines-render_lines [] h = unfold document_lines in refl
document_lines-render_lines (s ∷ ss) h =
    document_lines_of_ends_line _ (ends_line-append (join_lines (s ∷ ss)))
    ∙ ap split_lines (without_last-append (join_lines (s ∷ ss)))
    ∙ split_lines-join_lines s ss h

render_of_ne_nil : (ss : List Bytes) → ss ≢ [] → render_lines ss ≡ join_lines ss ++ newline ∷ []
unfolding render_lines
render_of_ne_nil [] h = absurd (h refl)
render_of_ne_nil (s ∷ ss) h = refl

-- A canonical document is the rendering of its lines.
pub render_lines-document_lines : (s : Bytes) → IsDocument s → render_lines (document_lines s) ≡ s
render_lines-document_lines [] h = unfold document_lines render_lines in refl
render_lines-document_lines (c ∷ s) h =
    ap render_lines (document_lines_of_ends_line (c ∷ s) h)
    ∙ render_of_ne_nil _ (split_lines-ne-nil (without_last (c ∷ s)))
    ∙ ap (λ r. r ++ newline ∷ []) (join_lines-split_lines (without_last (c ∷ s)))
    ∙ append-without_last (c ∷ s) h

IsDocument-of_ends_line : (s : Bytes) → ends_line s ≡ true → IsDocument s
IsDocument-of_ends_line [] h = tt
IsDocument-of_ends_line (c ∷ s) h = h

pub render_lines-IsDocument : (ss : List Bytes) → IsDocument (render_lines ss)
unfolding render_lines
render_lines-IsDocument [] = tt
render_lines-IsDocument (s ∷ ss) =
    IsDocument-of_ends_line _ (ends_line-append (join_lines (s ∷ ss)))
