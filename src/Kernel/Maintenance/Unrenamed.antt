-- ===== src/Kernel/Maintenance/Unrenamed.antt =====
-- A plan that renames nothing demands nothing.
use kg_os.Common.{Bytes, [], List, ◌∷◌, false, bytes_eq_refl, ok, ◌≡◌, refl, ap, All}
use kg_os.Common.Table.{find}
use kg_os.Kernel.Refs.{OntologyRef}
use kg_os.Kernel.Maintenance.{
  Plan, ConstraintSpec, LogicalIndex, renames_of, renamed, apply_property_rename_list, same_texts,
  transitioned_ontology_ref, found_transition, resolve_property, resolve_properties,
  expected_shared_index_properties, expected_targets, validate_derived_resource_maintenance,
}
use kg_os.Kernel.Maintenance.Accepts.{
  ConstraintKept, IndexKept, untouched, validate_derived_resource_maintenance_iff,
}

abbrev pub unrenamed : Plan
unrenamed = record { transitions = []; property_renames = [] }

transitioned_ontology_ref-unrenamed :
    (ref : OntologyRef) → transitioned_ontology_ref unrenamed ref ≡ ok (ref, false)
unfolding transitioned_ontology_ref found_transition find
transitioned_ontology_ref-unrenamed ref = refl

expected_targets-unrenamed :
    (refs : List OntologyRef) → expected_targets unrenamed refs ≡ ok (refs, false)
unfolding expected_targets
expected_targets-unrenamed [] = refl
expected_targets-unrenamed (ref ∷ refs) =
    rw (transitioned_ontology_ref-unrenamed ref, expected_targets-unrenamed refs) refl

resolve_property-again :
    (property : Bytes) (refs : List OntologyRef)
    → resolve_property unrenamed property property refs ≡ ok property
unfolding resolve_property transitioned_ontology_ref found_transition find renames_of renamed
resolve_property-again [] [] = refl
resolve_property-again (b ∷ s) [] = refl
resolve_property-again [] (ref ∷ refs) = resolve_property-again [] refs
resolve_property-again (b ∷ s) (ref ∷ refs) =
    rw (bytes_eq_refl (b ∷ s)) (resolve_property-again (b ∷ s) refs)

resolve_property-unrenamed :
    (property : Bytes) (refs : List OntologyRef)
    → resolve_property unrenamed property [] refs ≡ ok property
unfolding resolve_property transitioned_ontology_ref found_transition find renames_of renamed
resolve_property-unrenamed property [] = refl
resolve_property-unrenamed property (ref ∷ refs) = resolve_property-again property refs

resolve_properties-unrenamed :
    (refs : List OntologyRef) (properties : List Bytes)
    → resolve_properties unrenamed refs properties ≡ ok (properties, false)
unfolding resolve_properties
resolve_properties-unrenamed refs [] = refl
resolve_properties-unrenamed refs (p ∷ ps) =
    rw (resolve_property-unrenamed p refs, resolve_properties-unrenamed refs ps, bytes_eq_refl p)
      refl

apply_property_rename_list-unrenamed :
    (properties : List Bytes) → apply_property_rename_list properties [] ≡ properties
unfolding apply_property_rename_list renamed find
apply_property_rename_list-unrenamed [] = refl
apply_property_rename_list-unrenamed (p ∷ ps) =
    ap (λ xs. p ∷ xs) (apply_property_rename_list-unrenamed ps)

All-constraints :
    (targets base : List (Bytes × ConstraintSpec)) → All (ConstraintKept unrenamed targets) base
unfolding renames_of same_texts
All-constraints targets [] = tt
All-constraints targets ((name, c) ∷ base) = (
  untouched c.owner (transitioned_ontology_ref-unrenamed c.owner)
      (rw (apply_property_rename_list-unrenamed c.properties) (bytes_eq_refl _)),
  All-constraints targets base,
)

All-indexes : (targets base : List (Bytes × LogicalIndex)) → All (IndexKept unrenamed targets) base
unfolding expected_shared_index_properties
All-indexes targets [] = tt
All-indexes targets ((name, i) ∷ base) = (
  untouched i.targets i.properties (expected_targets-unrenamed i.targets)
      (resolve_properties-unrenamed i.targets i.properties),
  All-indexes targets base,
)

-- A plan that renames nothing is accepted with any constraints and indexes, those of the base being
-- deleted or changed as the patch wants.
pub validate_derived_resource_maintenance-unrenamed :
    (base_constraints target_constraints : List (Bytes × ConstraintSpec))
    (base_indexes target_indexes : List (Bytes × LogicalIndex))
    → validate_derived_resource_maintenance unrenamed base_constraints target_constraints
        base_indexes target_indexes
      ≡ ok tt
validate_derived_resource_maintenance-unrenamed bc tc bi ti =
    (validate_derived_resource_maintenance_iff unrenamed bc tc bi ti).1
      (All-constraints tc bc, All-indexes ti bi)
