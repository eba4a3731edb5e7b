-- ===== src/Kernel/Model/Local.antt =====
-- A constraint or an index that goes into its one property, and what stays true of it.
use kg_os.Common.{
  Bytes, [], List, ◌∷◌, true, false, not, some, inl, inr, bytes_eq, ok, ◌>>◌, ◌≡◌, refl, ap, subst,
  sym, All, Bool-cases, >>=-eq-ok, has_text, is_distinct, sort_by,
}
use kg_os.Kernel.Model.{
  Constraint, Index, refuse, is_nil, each_ok, validate_public_name, normalize_set, check_ref,
}
use kg_os.Kernel.Model.Loops.{>>-eq-ok}
use kg_os.Kernel.Model.Domains.{normalize_set-IsSortedSet, normalize_set-canonical}
use kg_os.Kernel.Model.Members.{
  check_constraint, check_index, normalize_index, only_property, is_index_type,
}

-- What `normalizeIndexes` returns it leaves as it is.
pub normalize_index-fixed :
    (types : List (Bytes × Bytes)) (names : List Bytes) (local : Bytes) (i : Index) {j : Index}
    → normalize_index types names local i ≡ ok j
    → normalize_index types names local j ≡ ok j
unfolding normalize_index
normalize_index-fixed types names local i {j} done =
    let (named, rest) = >>-eq-ok (validate_public_name i.name) _ done in
    let (typed, next) = >>-eq-ok (refuse (not (is_index_type i.type_name))) _ rest in
    let (targets, set, more) = >>=-eq-ok (normalize_set i.targets) _ next in
    let (refs, last) = >>-eq-ok (each_ok check_ref targets) _ more in
    let (checked, same) =
      >>-eq-ok (check_index types names local (record i { targets = targets })) _ last in
    let is : record i { targets = targets } ≡ j = cc same in
    let set_of = normalize_set-IsSortedSet i.targets set in
    let again = normalize_set-canonical targets set_of.is_ordered set_of.has_no_double in
    subst (λ j. normalize_index types names local j ≡ ok j) is
      (rw (named, typed, again, refs, checked) refl)

pub only_property-some :
    (names properties : List Bytes) {name : Bytes}
    → only_property names properties ≡ some name
    → (properties ≡ name ∷ []) × (has_text names name ≡ true)
unfolding only_property
only_property-some names [] e = cc
only_property-some names (p ∷ []) e = elim (Bool-cases (has_text names p)) [
  | inl known ↦
      let same : p ≡ _ = cc (rw known at e) in (ap (λ x. x ∷ []) same, rw (sym same) known)
  | inr unknown ↦ cc (rw unknown at e)
]
only_property-some names (p ∷ q ∷ ps) e = cc

-- No name is empty.
abbrev pub AllNamed : List Bytes → Type 0
AllNamed = All (λ n. is_nil n ≡ false)

pub has_text-named :
    (names : List Bytes) (name : Bytes)
    → AllNamed names
    → has_text names name ≡ true
    → is_nil name ≡ false
unfolding has_text bytes_eq
has_text-named [] name h e = cc
has_text-named (n ∷ names) (b ∷ name) h e = refl
has_text-named ((b ∷ n) ∷ names) [] (h, hs) e = has_text-named names [] hs e
has_text-named ([] ∷ names) [] (h, hs) e = cc

module _ (types : List (Bytes × Bytes)) (names : List Bytes) where
  pub local_constraint :
      (c : Constraint) (name : Bytes)
      → is_nil name ≡ false
      → c.properties ≡ name ∷ []
      → check_constraint names [] c ≡ ok tt
      → check_constraint names name (record c { properties = [] }) ≡ ok tt
  unfolding check_constraint
  local_constraint c [] some_name is_one h = cc
  local_constraint c (b ∷ name) some_name is_one h = rw is_one at h

  pub local_check :
      (i : Index) (name : Bytes)
      → is_nil name ≡ false
      → i.properties ≡ name ∷ []
      → i.targets ≡ []
      → check_index types names [] i ≡ ok tt
      → check_index types names name (record i { properties = [] }) ≡ ok tt
  unfolding check_index
  local_check i [] some_name is_one no_targets h = cc
  local_check i (b ∷ name) some_name is_one no_targets h =
      rw no_targets (rw (is_one, no_targets) at h)

  pub fixed_check :
      (i : Index) (local : Bytes)
      → normalize_index types names local i ≡ ok i
      → (validate_public_name i.name ≡ ok tt)
        × (refuse (not (is_index_type i.type_name)) ≡ ok tt)
        × (check_index types names local i ≡ ok tt)
  unfolding normalize_index
  fixed_check i local h =
      let (named, rest) = >>-eq-ok (validate_public_name i.name) _ h in
      let (typed, next) = >>-eq-ok (refuse (not (is_index_type i.type_name))) _ rest in
      let (targets, set, more) = >>=-eq-ok (normalize_set i.targets) _ next in
      let (refs, last) = >>-eq-ok (each_ok check_ref targets) _ more in
      let (checked, same) =
        >>-eq-ok (check_index types names local (record i { targets = targets })) _ last in
      let is : record i { targets = targets } ≡ i = cc same in
      (named, typed, subst (λ j. check_index types names local j ≡ ok tt) is checked)

  pub local_index :
      (i : Index) (name : Bytes)
      → is_nil name ≡ false
      → i.properties ≡ name ∷ []
      → i.targets ≡ []
      → normalize_index types names [] i ≡ ok i
      → normalize_index types names name (record i { properties = [] })
        ≡ ok (record i { properties = [] })
  unfolding normalize_index normalize_set is_distinct sort_by
  local_index i name some_name is_one no_targets h =
      let (named, typed, checked) = fixed_check i [] h in
      let here = local_check i name some_name is_one no_targets checked in
      let bare =
        subst
          (λ t. check_index types names name (record i { targets = t; properties = [] }) ≡ ok tt)
          no_targets here in
      rw (named, typed, no_targets)
        (ap (λ m. m >> ok (record i { targets = []; properties = [] })) bare)
