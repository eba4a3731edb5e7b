-- ===== src/Kernel/Maintenance/Accepts.antt =====
-- What `validateDerivedResourceMaintenance` accepts.
use kg_os.Common.{
  Bytes, List, Bool, true, false, not, ◌||◌, ◌&&◌, Option, none, some, ok, err, ◌≡◌, refl, ap, ◌∙◌,
  ◌↔◌, All, each, each_by, >>=-eq-ok,
}
use kg_os.Common.Table.{find}
use kg_os.Kernel.Errors.{Result}
use kg_os.Kernel.Refs.{OntologyRef}
use kg_os.Kernel.Model.{each_ok}
use kg_os.Kernel.Model.Loops.{>>-eq-ok, each_ok-eq-ok, each_ok-All, All-map}
use kg_os.Kernel.Maintenance.{
  Plan, ConstraintSpec, LogicalIndex, ref_eq, renames_of, apply_property_rename_list, same_texts,
  transitioned_ontology_ref, same_ontology_ref_set, conflict_if, expected_shared_index_properties,
  expected_targets, check_found_constraint, check_constraint_maintenance, or_conflict,
  check_found_index, check_index_maintenance, validate_derived_resource_maintenance,
}
use kg_os.Kernel.Maintenance.RefSets.{ref_eq_sound, ref_eq_refl}

module _ (plan : Plan) where
  -- The properties of a constraint after the renames of its owner.
  abbrev pub moved_properties : OntologyRef → List Bytes → List Bytes
  moved_properties owner properties =
      apply_property_rename_list properties (renames_of owner plan.property_renames)

  -- A constraint that the plan leaves alone, or that the target has under its name, with the owner
  -- and the properties that the plan's renames give.
  pub data ConstraintKept (targets : List (Bytes × ConstraintSpec)) (entry : Bytes × ConstraintSpec)
      : Type 0 where
    untouched :
        (owner : OntologyRef)
        → transitioned_ontology_ref plan (entry.1).owner ≡ ok (owner, false)
        → same_texts (moved_properties owner (entry.1).properties) (entry.1).properties ≡ true
        → ConstraintKept targets entry
    maintained :
        (owner : OntologyRef) (changed : Bool) (target : ConstraintSpec)
        → transitioned_ontology_ref plan (entry.1).owner ≡ ok (owner, changed)
        → find entry.0 targets ≡ some target
        → target.owner ≡ owner
        → same_texts target.properties (moved_properties owner (entry.1).properties) ≡ true
        → ConstraintKept targets entry

  -- The same of an index, with the targets and properties that the renames give; one property must
  -- get the same new name at each target.
  pub data IndexKept (targets : List (Bytes × LogicalIndex)) (entry : Bytes × LogicalIndex)
      : Type 0 where
    untouched :
        (refs : List OntologyRef) (properties : List Bytes)
        → expected_targets plan (entry.1).targets ≡ ok (refs, false)
        → expected_shared_index_properties plan entry.1 ≡ ok (properties, false)
        → IndexKept targets entry
    maintained :
        (refs : List OntologyRef) (properties : List Bytes) (moved changed : Bool)
        (target : LogicalIndex)
        → expected_targets plan (entry.1).targets ≡ ok (refs, moved)
        → expected_shared_index_properties plan entry.1 ≡ ok (properties, changed)
        → find entry.0 targets ≡ some target
        → same_ontology_ref_set target.targets refs ≡ true
        → same_texts target.properties properties ≡ true
        → IndexKept targets entry

  conflict_if-eq-ok : (bad : Bool) {u : Unit {0}} → conflict_if (not bad) ≡ ok u → bad ≡ true
  conflict_if-eq-ok true e = refl
  conflict_if-eq-ok false e = cc

  check_found_constraint-eq-ok :
      (owner : OntologyRef) (properties : List Bytes) (found : Option ConstraintSpec)
      → check_found_constraint owner properties found ≡ ok tt
      → (target : ConstraintSpec) × (found ≡ some target)
        × (target.owner ≡ owner)
        × (same_texts target.properties properties ≡ true)
  unfolding check_found_constraint
  check_found_constraint-eq-ok owner properties none e = cc
  check_found_constraint-eq-ok owner properties (some target) e =
      let (owned, rest) = >>-eq-ok (conflict_if (not (ref_eq target.owner owner))) _ e in
      (
        target,
        refl,
        ref_eq_sound target.owner owner (conflict_if-eq-ok _ owned),
        conflict_if-eq-ok _ rest,
      )

  constraint_sound :
      (targets : List (Bytes × ConstraintSpec)) (entry : Bytes × ConstraintSpec)
      → check_constraint_maintenance plan targets entry ≡ ok tt
      → ConstraintKept targets entry
  unfolding check_constraint_maintenance
  constraint_sound targets (name, base) done =
      let ((owner, changed), found, rest) =
        >>=-eq-ok (transitioned_ontology_ref plan base.owner) _ done in
      each_by {A = Result (Unit {0})} (λ m. m ≡ ok tt → ConstraintKept targets (name, base))
        (not changed && same_texts (moved_properties owner base.properties) base.properties)
        (λ alone _.
          untouched owner (found ∙ ap (λ b. ok (owner, b)) (not_changed changed _ alone))
            (second _ _ alone))
        (λ _ checked.
          let (target, there, owned, same) =
            check_found_constraint-eq-ok owner _ (find name targets) checked in
          maintained owner changed target found there owned same)
        rest
    where
      not_changed : (b c : Bool) → not b && c ≡ true → b ≡ false
      not_changed true c e = cc
      not_changed false c e = refl

      second : (b c : Bool) → b && c ≡ true → c ≡ true
      second true c e = e
      second false c e = cc

  constraint_complete :
      (targets : List (Bytes × ConstraintSpec)) (entry : Bytes × ConstraintSpec)
      → ConstraintKept targets entry
      → check_constraint_maintenance plan targets entry ≡ ok tt
  unfolding check_constraint_maintenance check_found_constraint
  constraint_complete targets (name, base) (untouched owner found same) = rw (found, same) refl
  constraint_complete targets (name, base)
        (maintained owner changed target found there owned same) =
      rw found (
        each {A = Result (Unit {0})} (λ m. m ≡ ok tt)
          (not changed && same_texts (moved_properties owner base.properties) base.properties) refl
          (rw (there, owned, ref_eq_refl owner, same) refl))

  check_found_index-eq-ok :
      (refs : List OntologyRef) (properties : List Bytes) (found : Option LogicalIndex)
      → check_found_index refs properties found ≡ ok tt
      → (target : LogicalIndex) × (found ≡ some target)
        × (same_ontology_ref_set target.targets refs ≡ true)
        × (same_texts target.properties properties ≡ true)
  unfolding check_found_index
  check_found_index-eq-ok refs properties none e = cc
  check_found_index-eq-ok refs properties (some target) e =
      let (owned, rest) =
        >>-eq-ok (conflict_if (not (same_ontology_ref_set target.targets refs))) _ e in
      (target, refl, conflict_if-eq-ok _ owned, conflict_if-eq-ok _ rest)

  or_conflict-eq-ok :
      (found : Result (List Bytes × Bool)) {p : List Bytes × Bool}
      → or_conflict found ≡ ok p
      → found ≡ ok p
  unfolding or_conflict
  or_conflict-eq-ok (ok found) e = e
  or_conflict-eq-ok (err e) h = cc

  index_sound :
      (targets : List (Bytes × LogicalIndex)) (entry : Bytes × LogicalIndex)
      → check_index_maintenance plan targets entry ≡ ok tt
      → IndexKept targets entry
  unfolding check_index_maintenance
  index_sound targets (name, base) done =
      let ((refs, moved), found, rest) = >>=-eq-ok (expected_targets plan base.targets) _ done in
      let ((properties, changed), wanted, last) =
        >>=-eq-ok (or_conflict (expected_shared_index_properties plan base)) _ rest in
      let expected = or_conflict-eq-ok (expected_shared_index_properties plan base) wanted in
      each_by {A = Result (Unit {0})} (λ m. m ≡ ok tt → IndexKept targets (name, base))
        (not (moved || changed))
        (λ alone _.
          let (still, same) = neither moved changed alone in
          untouched refs properties (found ∙ ap (λ b. ok (refs, b)) still)
            (expected ∙ ap (λ b. ok (properties, b)) same))
        (λ _ checked.
          let (target, there, owned, same) =
            check_found_index-eq-ok refs properties (find name targets) checked in
          maintained refs properties moved changed target found expected there owned same)
        last
    where
      neither : (a b : Bool) → not (a || b) ≡ true → (a ≡ false) × (b ≡ false)
      neither false false e = (refl, refl)
      neither false true e = cc
      neither true b e = cc

  index_complete :
      (targets : List (Bytes × LogicalIndex)) (entry : Bytes × LogicalIndex)
      → IndexKept targets entry
      → check_index_maintenance plan targets entry ≡ ok tt
  unfolding check_index_maintenance check_found_index or_conflict
  index_complete targets (name, base) (untouched refs properties found expected) =
      rw (found, expected) refl
  index_complete targets (name, base)
        (maintained refs properties moved changed target found expected there owned same) =
      rw (found, expected)
        (each {A = Result (Unit {0})} (λ m. m ≡ ok tt) (not (moved || changed)) refl
          (rw (there, owned, same) refl))

  -- A target is accepted by `validateDerivedResourceMaintenance` exactly where every constraint and
  -- every index of the base is kept: each is left alone by the plan's renames, or the target has one
  -- of its name, with the owner or the targets and with the properties that the renames give.
  pub validate_derived_resource_maintenance_iff :
      (base_constraints target_constraints : List (Bytes × ConstraintSpec))
      (base_indexes target_indexes : List (Bytes × LogicalIndex))
      → (validate_derived_resource_maintenance plan base_constraints target_constraints base_indexes
            target_indexes
          ≡ ok tt)
        ↔ (All (ConstraintKept target_constraints) base_constraints
            × All (IndexKept target_indexes) base_indexes)
  unfolding validate_derived_resource_maintenance
  validate_derived_resource_maintenance_iff bc tc bi ti = (
    (λ done.
        let (constraints, indexes) =
          >>-eq-ok (each_ok (check_constraint_maintenance plan tc) bc) _ done in
        (
          All-map _ _ bc (constraint_sound tc) (each_ok-eq-ok _ bc constraints),
          All-map _ _ bi (index_sound ti) (each_ok-eq-ok _ bi indexes),
        )),
    (λ (constraints, indexes).
        rw
          (each_ok-All (check_constraint_maintenance plan tc) bc
            (All-map _ _ bc (constraint_complete tc) constraints))
          (each_ok-All (check_index_maintenance plan ti) bi
            (All-map _ _ bi (index_complete ti) indexes))),
  )
