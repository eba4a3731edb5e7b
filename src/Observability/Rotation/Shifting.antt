-- ===== src/Observability/Rotation/Shifting.antt =====
-- What the loop of `rotate` does with the files.
use kg_os.Common.{each, ℕ, zero, suc, ◌-◌, ◌≤◌, ◌<◌, not, none, ◌==◌, ◌≡◌, refl, ◌∙◌, subst, arith}
use kg_os.Observability.Rotation.{
  Entry, absent, irregular, regular, Files, Disk, with_entry, renamed, Moved, move, shift,
}

abbrev pub Fits : ℕ → Entry → Type 0
Fits limit (regular size) = size ≤ limit
Fits limit entry = Unit

abbrev pub AllFit : ℕ → Files → Type 0
AllFit limit files = (j : ℕ) → Fits limit (files j)

pub with_entry-AllFit :
    (limit i : ℕ) (e : Entry) (files : Files)
    → Fits limit e
    → AllFit limit files
    → AllFit limit (with_entry i e files)
with_entry-AllFit limit i e files h k j = each (Fits limit) (j == i) h (k j)

renamed-AllFit :
    (limit from to : ℕ) (files : Files) → AllFit limit files → AllFit limit (renamed from to files)
renamed-AllFit limit from to files h =
    with_entry-AllFit limit from absent (with_entry to (files from) files) tt
      (with_entry-AllFit limit to (files from) files (h from) h)

-- What a rotation leaves: no file is larger than the limit, and none above the index has changed.
pub record Shifts (limit n : ℕ) (before : Files) (m : Moved) : Type 0 where
  pub all_fit : AllFit limit m.0
  pub above : (j : ℕ) → n < j → m.0 j ≡ before j

pub with_entry_other :
    (i j : ℕ) (e : Entry) (files : Files) → i < j → with_entry i e files j ≡ files j
with_entry_other i j e files l = ground arith

renamed_above : (i j : ℕ) (files : Files) → suc i < j → renamed i (suc i) files j ≡ files j
renamed_above i j files l =
    with_entry_other i j absent (with_entry (suc i) (files i) files) (omega arith)
    ∙ with_entry_other (suc i) j (files i) files l

weaker-Shifts :
    (limit i : ℕ) (before after : Files) (m : Moved)
    → ((j : ℕ) → suc i < j → after j ≡ before j)
    → Shifts limit i after m
    → Shifts limit (suc i) before m
weaker-Shifts limit i before after m same s = record {
  all_fit = s.all_fit;
  above = λ j l. s.above j (omega arith) ∙ same j l;
}

move-Shifts :
    (d : Disk) (limit i : ℕ) (e : Entry) (files : Files) (next : Files → Moved)
    → AllFit limit files
    → ((f : Files) → AllFit limit f → Shifts limit i f (next f))
    → Shifts limit (suc i) files (move d i e files next)
unfolding move
move-Shifts d limit i absent files next h k =
    weaker-Shifts limit i files files _ (λ j l. refl) (k files h)
move-Shifts d limit i irregular files next h k =
    each (Shifts limit (suc i) files) (not (d.renames (suc i)))
      (record { all_fit = h; above = λ j l. refl })
      (weaker-Shifts limit i files (renamed i (suc i) files) _ (λ j l. renamed_above i j files l)
        (k (renamed i (suc i) files) (renamed-AllFit limit i (suc i) files h)))
move-Shifts d limit i (regular size) files next h k =
    each (Shifts limit (suc i) files) (not (d.renames (suc i)))
      (record { all_fit = h; above = λ j l. refl })
      (weaker-Shifts limit i files (renamed i (suc i) files) _ (λ j l. renamed_above i j files l)
        (k (renamed i (suc i) files) (renamed-AllFit limit i (suc i) files h)))

pub shift-Shifts :
    (d : Disk) (limit n : ℕ) (files : Files)
    → AllFit limit files
    → Shifts limit n files (shift d n files)
unfolding shift
shift-Shifts d limit zero files h = record { all_fit = h; above = λ j l. refl }
shift-Shifts d limit (suc i) files h =
    each (Shifts limit (suc i) files) (not (d.examines i))
      (record { all_fit = h; above = λ j l. refl })
      (move-Shifts d limit i (files i) files (shift d i) h (λ f. shift-Shifts d limit i f))

-- A rotation over at least one older name leaves no kgosd.log.
unfoldable pub Empties : Moved → Type 0
Empties m = m.1 ≡ none → m.0 0 ≡ absent

shift-Empties : (d : Disk) (n : ℕ) (files : Files) → Empties (shift d (suc n) files)
unfolding shift move Empties
shift-Empties d zero files = each Empties (not (d.examines 0)) (λ e. cc) (at (files 0) refl)
  where
    at : (e : Entry) → files 0 ≡ e → Empties (move d 0 e files (shift d 0))
    at absent same = λ _. same
    at irregular same = each Empties (not (d.renames 1)) (λ e. cc) (λ e. refl)
    at (regular size) same = each Empties (not (d.renames 1)) (λ e. cc) (λ e. refl)
shift-Empties d (suc n) files =
    each Empties (not (d.examines (suc n))) (λ e. cc)
      (at (λ f. shift-Empties d n f) (files (suc n)))
  where
    at :
        ((f : Files) → Empties (shift d (suc n) f))
        → (e : Entry) → Empties (move d (suc n) e files (shift d (suc n)))
    at k absent = k files
    at k irregular = each Empties (not (d.renames (suc (suc n)))) (λ e. cc) (k _)
    at k (regular size) = each Empties (not (d.renames (suc (suc n)))) (λ e. cc) (k _)

pub older-Empties : (d : Disk) (n : ℕ) (files : Files) → 2 ≤ n → Empties (shift d (n - 1) files)
older-Empties d zero files l = absurd (omega arith)
older-Empties d (suc zero) files l = absurd (omega arith)
older-Empties d (suc (suc n)) files l =
    let one_less : suc n ≡ suc (suc n) - 1 = omega arith in
    subst (λ k. Empties (shift d k files)) one_less (shift-Empties d n files)
