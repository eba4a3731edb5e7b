-- ===== src/Kernel/Patch/Hunks/Lines.antt =====
-- One hunk's lines: they succeed exactly where the old side stands in the base.
use kg_os.Common.{
  ◌+◌, Bytes, ◌∷◌, [], List, ◌++◌, true, ◌||◌, ok, >>=-eq-ok, ◌==◌, bytes_eq_iff, bytes_eq_refl,
  length, length-append, get_elem?, ◌≡◌, refl, sym, ap, ◌∙◌, inl, inr, arith, append_assoc,
  append-nil, Bool-cases, subst,
}
use kg_os.Kernel.Patch.Hunks.{Line, Cursor, matches, apply_line, apply_lines}
use kg_os.Kernel.Patch.Hunks.Sides.{old_of, new_of, old_side, new_side}

-- The cursor behind `old` lines of the base and `new` lines of output.
abbrev pub advance : List Bytes → List Bytes → Cursor → Cursor
advance old new c = record {
  index = c.index + length old;
  output = c.output ++ new;
  old_used = c.old_used + length old;
  new_used = c.new_used + length new;
}

get_elem?-append : (pre rest : List Bytes) → get_elem? (pre ++ rest) (length pre) ≡ get_elem? rest 0
get_elem?-append [] rest = refl
get_elem?-append (x ∷ pre) rest = get_elem?-append pre rest

matches_sound :
    (rest : List Bytes) (content : Bytes)
    → matches (get_elem? rest 0) content ≡ true
    → (rest' : List Bytes) × (rest ≡ content ∷ rest')
matches_sound [] content h = cc
matches_sound (x ∷ rest) content h = (rest, ap (λ y. y ∷ rest) ((bytes_eq_iff x content).0 h))

pub apply_line_complete :
    (pre rest : List Bytes) (l : Line) (c : Cursor)
    → c.index ≡ length pre
    → apply_line (pre ++ (old_of l ++ rest)) l c ≡ ok (advance (old_of l) (new_of l) c)
unfolding apply_line
apply_line_complete pre rest l c h =
    ground
      (arith, get_elem?-append pre (old_of l ++ rest), bytes_eq_refl l.content, append-nil c.output)

apply_line_matches :
    (pre rest : List Bytes) (l : Line) (c c' : Cursor)
    → c.index ≡ length pre
    → apply_line (pre ++ rest) l c ≡ ok c'
    → (rest' : List Bytes) × (rest ≡ old_of l ++ rest')
unfolding apply_line
apply_line_matches pre rest l c c' h e = elim (Bool-cases (l.mark == b' ' || l.mark == b'-')) [
  | inl old ↦
      let found : matches (get_elem? rest 0) l.content ≡ true =
        ground (arith, get_elem?-append pre rest) in
      let (rest', same) = matches_sound rest l.content found in (rest', rw old same)
  | inr other ↦ (rest, rw other)
]

pub apply_line_sound :
    (pre rest : List Bytes) (l : Line) (c c' : Cursor)
    → c.index ≡ length pre
    → apply_line (pre ++ rest) l c ≡ ok c'
    → (rest' : List Bytes) × (rest ≡ old_of l ++ rest') × (c' ≡ advance (old_of l) (new_of l) c)
apply_line_sound pre rest l c c' h e =
    let (rest', same) = apply_line_matches pre rest l c c' h e in
    (rest', same, cc (apply_line_complete pre rest' l c h))

advance-advance :
    (os ns os' ns' : List Bytes) (c : Cursor)
    → advance os' ns' (advance os ns c) ≡ advance (os ++ os') (ns ++ ns') c
advance-advance os ns os' ns' c =
    ground (arith, length-append os os', length-append ns ns', append_assoc c.output ns ns')

advance_nil : (c : Cursor) → advance [] [] c ≡ c
advance_nil c = ground (arith, append-nil c.output)

length-behind :
    (pre os ns : List Bytes) (c : Cursor)
    → c.index ≡ length pre
    → (advance os ns c).index ≡ length (pre ++ os)
length-behind pre os ns c h = omega (arith, length-append pre os)

-- Where the old side of the lines stands in the base, they succeed and write the new side.
pub apply_lines_complete :
    (base pre rest : List Bytes) (ls : List Line) (c : Cursor)
    → base ≡ pre ++ (old_side ls ++ rest)
    → c.index ≡ length pre
    → apply_lines base ls c ≡ ok (advance (old_side ls) (new_side ls) c)
unfolding apply_lines
apply_lines_complete base pre rest [] c b h = ap ok (sym (advance_nil c))
apply_lines_complete base pre rest (l ∷ ls) c b h =
    let here : base ≡ pre ++ (old_of l ++ (old_side ls ++ rest)) =
      b ∙ ap (λ s. pre ++ s) (append_assoc (old_of l) (old_side ls) rest) in
    let first : apply_line base l c ≡ ok (advance (old_of l) (new_of l) c) =
      rw here (apply_line_complete pre (old_side ls ++ rest) l c h) in
    let later =
      apply_lines_complete base (pre ++ old_of l) rest ls (advance (old_of l) (new_of l) c)
        (here ∙ sym (append_assoc pre (old_of l) (old_side ls ++ rest)))
        (length-behind pre (old_of l) (new_of l) c h) in
    rw first (later ∙ ap ok (advance-advance (old_of l) (new_of l) (old_side ls) (new_side ls) c))

-- Lines that succeed have their old side in the base, and write the new side.
pub apply_lines_sound :
    (base pre rest : List Bytes) (ls : List Line) (c c' : Cursor)
    → base ≡ pre ++ rest
    → c.index ≡ length pre
    → apply_lines base ls c ≡ ok c'
    → (rest' : List Bytes) × (rest ≡ old_side ls ++ rest')
      × (c' ≡ advance (old_side ls) (new_side ls) c)
unfolding apply_lines
apply_lines_sound base pre rest [] c c' b h e = (rest, refl, ground (arith, advance_nil c))
apply_lines_sound base pre rest (l ∷ ls) c c' b h e =
    let (c₁, first, more) = >>=-eq-ok (apply_line base l c) (apply_lines base ls) e in
    let (rest₁, same₁, at₁) =
      apply_line_sound pre rest l c c₁ h (subst (λ s. apply_line s l c ≡ ok c₁) b first) in
    let (rest₂, same₂, at₂) =
      apply_lines_sound base (pre ++ old_of l) rest₁ ls (advance (old_of l) (new_of l) c) c'
        (b ∙ ap (λ s. pre ++ s) same₁ ∙ sym (append_assoc pre (old_of l) rest₁))
        (length-behind pre (old_of l) (new_of l) c h)
        (subst (λ x. apply_lines base ls x ≡ ok c') at₁ more) in
    (
      rest₂,
      same₁ ∙ ap (λ s. old_of l ++ s) same₂ ∙ sym (append_assoc (old_of l) (old_side ls) rest₂),
      at₂ ∙ advance-advance (old_of l) (new_of l) (old_side ls) (new_side ls) c,
    )
