-- ===== src/Kernel/Patch/Hunks/Decides.antt =====
-- The loop over the hunks decides `Patched`.
use kg_os.Common.{
  ℕ, ◌+◌, ◌-◌, ◌≤◌, suc, zero, Bytes, ◌∷◌, [], List, ◌++◌, ok, ◌>>=◌, >>=-eq-ok, length,
  length-append, take, drop, ◌≡◌, refl, sym, ap, ◌∙◌, ◌↔◌, arith, append_assoc, subst, subst₂,
}
use kg_os.Kernel.Patch.Hunks.{
  Hunk, Cursor, apply_lines, position_of, check_counts, apply_hunk, apply_hunks,
}
use kg_os.Kernel.Patch.Hunks.Sides.{old_side, new_side, IsPlace, Fits, Patched, done, hunk}
use kg_os.Kernel.Patch.Hunks.Lines.{advance, apply_lines_complete, apply_lines_sound}

drop-append : (pre old : List Bytes) → drop (length pre) (pre ++ old) ≡ old
drop-append [] old = refl
drop-append (x ∷ pre) old = drop-append pre old

take-append-drop : (n : ℕ) (xs : List Bytes) → take n xs ++ drop n xs ≡ xs
take-append-drop zero xs = refl
take-append-drop (suc n) [] = refl
take-append-drop (suc n) (x ∷ xs) = ap (λ s. x ∷ s) (take-append-drop n xs)

length-take_le : (n : ℕ) (xs : List Bytes) → n ≤ length xs → length (take n xs) ≡ n
length-take_le zero xs h = refl
length-take_le (suc n) [] h = absurd (omega arith)
length-take_le (suc n) (x ∷ xs) h = omega (arith, length-take_le n xs (omega arith))

take-append : (gap rest : List Bytes) → take (length gap) (gap ++ rest) ≡ gap
take-append [] rest = refl
take-append (x ∷ gap) rest = ap (λ s. x ∷ s) (take-append gap rest)

abbrev copied_to : List Bytes → Hunk → ℕ → List Bytes → List Bytes
copied_to base h index output = output ++ take (position_of h - index) (drop index base)

abbrev start : ℕ → List Bytes → Cursor
start position copied = record { index = position; output = copied; old_used = 0; new_used = 0 }

-- The guards of a hunk that succeeds.
apply_hunk_guards :
    (base : List Bytes) (h : Hunk) (index : ℕ) (output : List Bytes) {r : ℕ × List Bytes}
    → apply_hunk base h index output ≡ ok r
    → (index ≤ position_of h)
      × (position_of h ≤ length base)
      × IsPlace h.new_start (length (copied_to base h index output))
      × ((apply_lines base h.lines (start (position_of h) (copied_to base h index output))
            >>= check_counts h)
          ≡ ok r)
unfolding apply_hunk
apply_hunk_guards base h index output e = (ground arith, ground arith, ground arith, ground arith)

-- A hunk that passes the guards runs its lines.
apply_hunk_run :
    (base : List Bytes) (h : Hunk) (index : ℕ) (output : List Bytes)
    → index ≤ position_of h
    → position_of h ≤ length base
    → IsPlace h.new_start (length (copied_to base h index output))
    → apply_hunk base h index output ≡ (
        apply_lines base h.lines (start (position_of h) (copied_to base h index output))
        >>= check_counts h)
unfolding apply_hunk
apply_hunk_run base h index output low high place = ground arith

check_counts_complete :
    (h : Hunk) (c : Cursor)
    → c.old_used ≡ h.old_count
    → c.new_used ≡ h.new_count
    → check_counts h c ≡ ok (c.index, c.output)
unfolding check_counts
check_counts_complete h c old new = ground arith

check_counts_sound :
    (h : Hunk) (c : Cursor) {r : ℕ × List Bytes}
    → check_counts h c ≡ ok r
    → (c.old_used ≡ h.old_count) × (c.new_used ≡ h.new_count) × (r ≡ (c.index, c.output))
unfolding check_counts
check_counts_sound h c e = ground arith

IsPlace-of_position : (h : Hunk) → IsPlace h.old_start (position_of h)
IsPlace-of_position h = ground arith

position_of_place : (h : Hunk) (p : ℕ) → IsPlace h.old_start p → position_of h ≡ p
position_of_place h p v = ground arith

-- A hunk that succeeds fits, its old side stands behind a gap in the base, and the gap and the
-- new side are written.
apply_hunk_sound :
    (base pre old : List Bytes) (h : Hunk) (output : List Bytes) {i : ℕ} {out : List Bytes}
    → base ≡ pre ++ old
    → apply_hunk base h (length pre) output ≡ ok (i, out)
    → (gap old' : List Bytes) × Fits (length pre + length gap) (length output + length gap) h
      × (old ≡ gap ++ (old_side h.lines ++ old'))
      × (i ≡ length pre + length gap + length (old_side h.lines))
      × (out ≡ output ++ (gap ++ new_side h.lines))
apply_hunk_sound base pre old h output {i} {out} b e =
    let (low, high, place, run) = apply_hunk_guards base h (length pre) output e in
    let (c, lines, counts) =
      >>=-eq-ok
        (apply_lines base h.lines (start (position_of h) (copied_to base h (length pre) output)))
        (check_counts h) run in
    let behind : drop (length pre) base ≡ old = rw b (drop-append pre old) in
    let gap : List Bytes = take (position_of h - length pre) old in
    let rest : List Bytes = drop (position_of h - length pre) old in
    let parts : gap ++ rest ≡ old = take-append-drop (position_of h - length pre) old in
    let all : length base ≡ length pre + length old = rw b (length-append pre old) in
    let long : length gap ≡ position_of h - length pre =
      length-take_le (position_of h - length pre) old (omega arith) in
    let copied : copied_to base h (length pre) output ≡ output ++ gap =
      ap (λ s. output ++ take (position_of h - length pre) s) behind in
    let (old', same, at) =
      apply_lines_sound base (pre ++ gap) rest h.lines (start (position_of h) (output ++ gap)) c
        (b ∙ ap (λ s. pre ++ s) (sym parts) ∙ sym (append_assoc pre gap rest))
        (omega (arith, length-append pre gap))
        (subst (λ s. apply_lines base h.lines (start (position_of h) s) ≡ ok c) copied lines) in
    let (old_counted, new_counted, result) = check_counts_sound h c counts in
    let place_eq : position_of h ≡ length pre + length gap = omega arith in
    let old_used : c.old_used ≡ length (old_side h.lines) =
      ap (λ (x : Cursor). x.old_used) at ∙ omega arith in
    let new_used : c.new_used ≡ length (new_side h.lines) =
      ap (λ (x : Cursor). x.new_used) at ∙ omega arith in
    (
      gap,
      old',
      record {
        old_place = subst (IsPlace h.old_start) place_eq (IsPlace-of_position h);
        new_place = subst (IsPlace h.new_start) (ap length copied ∙ length-append output gap) place;
        old_counted = sym old_used ∙ old_counted;
        new_counted = sym new_used ∙ new_counted;
      },
      sym parts ∙ ap (λ s. gap ++ s) same,
      ap (λ (x : ℕ × List Bytes). x.0) result
          ∙ ap (λ (x : Cursor). x.index) at
          ∙ ap (λ n. n + length (old_side h.lines)) place_eq,
      ap (λ (x : ℕ × List Bytes). x.1) result
          ∙ ap (λ (x : Cursor). x.output) at
          ∙ append_assoc output gap (new_side h.lines),
    )

-- A hunk that fits, and whose old side stands behind the gap, succeeds.
apply_hunk_complete :
    (base pre gap old' : List Bytes) (h : Hunk) (output : List Bytes)
    → base ≡ pre ++ (gap ++ (old_side h.lines ++ old'))
    → Fits (length pre + length gap) (length output + length gap) h
    → apply_hunk base h (length pre) output
      ≡ ok
          (length pre + length gap + length (old_side h.lines), output ++ (gap ++ new_side h.lines))
apply_hunk_complete base pre gap old' h output b f =
    let place : position_of h ≡ length pre + length gap =
      position_of_place h (length pre + length gap) f.old_place in
    let behind : drop (length pre) base ≡ gap ++ (old_side h.lines ++ old') =
      rw b (drop-append pre (gap ++ (old_side h.lines ++ old'))) in
    let span : position_of h - length pre ≡ length gap = omega arith in
    let copied : copied_to base h (length pre) output ≡ output ++ gap =
      ap (λ s. output ++ s) (rw (behind, span) (take-append gap (old_side h.lines ++ old'))) in
    let all : length base ≡ length pre + (length gap + length (old_side h.lines ++ old')) = rw (
      b,
      length-append pre (gap ++ (old_side h.lines ++ old')),
      length-append gap (old_side h.lines ++ old'),
    ) in
    let lines =
      apply_lines_complete base (pre ++ gap) old' h.lines (start (position_of h) (output ++ gap))
        (b ∙ sym (append_assoc pre gap (old_side h.lines ++ old')))
        (place ∙ sym (length-append pre gap)) in
    let new_place : IsPlace h.new_start (length (copied_to base h (length pre) output)) =
      subst (IsPlace h.new_start) (sym (ap length copied ∙ length-append output gap)) f.new_place in
    let counted =
      check_counts_complete h
        (advance (old_side h.lines) (new_side h.lines) (start (position_of h) (output ++ gap)))
        (omega (arith, f)) (omega (arith, f)) in
    apply_hunk_run base h (length pre) output (omega arith) (omega arith) new_place
    ∙ rw (copied, lines)
        (counted
          ∙ ap ok (λ i.
            (place i + length (old_side h.lines), append_assoc output gap (new_side h.lines) i)))

length_three : (a b c : List Bytes) → length (a ++ (b ++ c)) ≡ length a + length b + length c
length_three a b c = omega (arith, length-append a (b ++ c), length-append b c)

regroup : (a b c d : List Bytes) → a ++ (b ++ (c ++ d)) ≡ (a ++ (b ++ c)) ++ d
regroup a b c d = simp append_assoc

apply_hunks_sound :
    (base pre old : List Bytes) (hs : List Hunk) (output r : List Bytes)
    → base ≡ pre ++ old
    → apply_hunks base hs (length pre, output) ≡ ok r
    → (new : List Bytes) × (r ≡ output ++ new) × Patched (length pre) (length output) hs old new
unfolding apply_hunks
apply_hunks_sound base pre old [] output r b e =
    let behind : drop (length pre) base ≡ old = rw b (drop-append pre old) in
    let same : r ≡ output ++ drop (length pre) base = cc in
    (old, same ∙ ap (λ s. output ++ s) behind, done old)
apply_hunks_sound base pre old (h ∷ hs) output r b e =
    let ((i, out), one, more) =
      >>=-eq-ok (apply_hunk base h (length pre) output) (apply_hunks base hs) e in
    let (gap, old', f, parts, at, text) = apply_hunk_sound base pre old h output b one in
    let before : List Bytes = pre ++ (gap ++ old_side h.lines) in
    let written : List Bytes = output ++ (gap ++ new_side h.lines) in
    let passed : length pre + length gap + length (old_side h.lines) ≡ length before =
      sym (length_three pre gap (old_side h.lines)) in
    let cursor : ◌≡◌ {A = ℕ × List Bytes} (i, out) (length before, written) =
      λ k. ((at ∙ passed) k, text k) in
    let (new', tail, p) =
      apply_hunks_sound base before old' hs written r
        (b ∙ ap (λ s. pre ++ s) parts ∙ regroup pre gap (old_side h.lines) old')
        (subst (λ x. apply_hunks base hs x ≡ ok r) cursor more) in
    (
      gap ++ (new_side h.lines ++ new'),
      tail ∙ sym (regroup output gap (new_side h.lines) new'),
      hunk gap old' new' f parts refl (
          subst₂ (λ x y. Patched x y hs old' new') (sym passed)
            (length_three output gap (new_side h.lines)) p),
    )

apply_hunks_complete :
    (base pre : List Bytes) {i o : ℕ} (hs : List Hunk) {old new : List Bytes} (output : List Bytes)
    → Patched i o hs old new
    → i ≡ length pre
    → o ≡ length output
    → base ≡ pre ++ old
    → apply_hunks base hs (length pre, output) ≡ ok (output ++ new)
unfolding apply_hunks
apply_hunks_complete base pre [] output (done rest) i o b =
    ap (λ s. ok (output ++ s)) (rw b (drop-append pre rest))
apply_hunks_complete base pre (h ∷ hs) output (hunk gap old' new' f split joined more) i o b =
    let here : base ≡ pre ++ (gap ++ (old_side h.lines ++ old')) = b ∙ ap (λ s. pre ++ s) split in
    let one =
      apply_hunk_complete base pre gap old' h output here
        (subst₂ (λ x y. Fits (x + length gap) (y + length gap) h) i o f) in
    let later =
      apply_hunks_complete base (pre ++ (gap ++ old_side h.lines)) hs
        (output ++ (gap ++ new_side h.lines)) more
        (ap (λ x. x + length gap + length (old_side h.lines)) i
          ∙ sym (length_three pre gap (old_side h.lines)))
        (ap (λ x. x + length gap + length (new_side h.lines)) o
          ∙ sym (length_three output gap (new_side h.lines)))
        (here ∙ regroup pre gap (old_side h.lines) old') in
    rw (one, ← length_three pre gap (old_side h.lines))
      (later
        ∙ ap ok
            (sym (regroup output gap (new_side h.lines) new') ∙ ap (λ s. output ++ s) (sym joined)))

-- From a base the loop over the hunks returns a text exactly when the hunks turn the one into the
-- other.
pub apply_hunks_iff :
    (base : List Bytes) (hs : List Hunk) (r : List Bytes)
    → (apply_hunks base hs (0, []) ≡ ok r) ↔ Patched 0 0 hs base r
apply_hunks_iff base hs r = (
  λ e.
      let (new, same, p) = apply_hunks_sound base [] base hs [] r refl e in
      subst (Patched 0 0 hs base) (sym same) p,
  λ p. apply_hunks_complete base [] hs [] p refl refl refl,
)
