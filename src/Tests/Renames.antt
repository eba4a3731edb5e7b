-- ===== src/Tests/Renames.antt =====
-- The maintenance of constraints and indexes: internal/kernel/patch_conflict.go.
use kg_os.Common.{
  Bytes, codes, [], List, ◌∷◌, true, false, some, ok, ◌≡◌, ◌↔◌, refl, All, Permᴰ, utf8_valid,
  bytes_eq, has_prefix, cut, join, sort_by, insert_by, text_leb,
}
use kg_os.Common.Table.{find}
use kg_os.Kernel.Refs.{OntologyRef, node_definition, ontology_string, parse_ontology_ref}
use kg_os.Kernel.Refs.Component.{encode_ref_component, decode_ref_component, is_unreserved}
use kg_os.Kernel.Refs.Ontology.{IsOntologyRef}
use kg_os.Kernel.Maintenance.{
  Plan, ConstraintSpec, LogicalIndex, validate_derived_resource_maintenance,
  check_constraint_maintenance, check_index_maintenance, transitioned_ontology_ref,
  found_transition, parsed_transition, renames_of, renamed, ref_eq, kind_eq,
  apply_property_rename_list, same_texts, check_found_constraint, expected_targets,
  expected_shared_index_properties, resolve_properties, resolve_property, or_conflict,
  check_found_index, same_ontology_ref_set, all_eq,
}
use kg_os.Kernel.Maintenance.RefSets.{same_ontology_ref_set_iff}
use kg_os.Kernel.Maintenance.Accepts.{
  ConstraintKept, IndexKept, validate_derived_resource_maintenance_iff,
}
use kg_os.Kernel.Maintenance.Endpoints.{
  apply_endpoint_transitions, move_end, is_ref, move_base_end, move_other_end, NoChain, renamed_end,
  apply_endpoint_transitions-renamed,
}
use kg_os.Kernel.Maintenance.Unrenamed.{unrenamed, validate_derived_resource_maintenance-unrenamed}

node : Bytes → OntologyRef
node name = record { kind = node_definition; name = name }

abbrev plan : Plan
plan = record {
  transitions = (codes "node:A", codes "node:B") ∷ [];
  property_renames =
      (record { kind = node_definition; name = codes "B" }, (codes "p", codes "q") ∷ []) ∷ [];
}

abbrev rule : Bytes → Bytes → ConstraintSpec
rule owner property = record {
  name = codes "c";
  owner = record { kind = node_definition; name = owner };
  type_name = codes "unique";
  properties = property ∷ [];
}

abbrev shared : Bytes → Bytes → LogicalIndex
shared target property = record {
  name = codes "i";
  type_name = codes "fulltext";
  targets = record { kind = node_definition; name = target } ∷ [];
  properties = property ∷ [];
}

abbrev base_rules : List (Bytes × ConstraintSpec)
base_rules =
    (codes "c", rule (codes "A") (codes "p")) ∷ (codes "d", rule (codes "C") (codes "p")) ∷ []

abbrev new_rules : List (Bytes × ConstraintSpec)
new_rules = (codes "c", rule (codes "B") (codes "q")) ∷ []

abbrev base_indexes : List (Bytes × LogicalIndex)
base_indexes = (codes "i", shared (codes "A") (codes "p")) ∷ []

abbrev new_indexes : List (Bytes × LogicalIndex)
new_indexes = (codes "i", shared (codes "B") (codes "q")) ∷ []

is_node_b : IsOntologyRef (node (codes "B"))
unfolding node utf8_valid
is_node_b = record { kind = refl; named = λ e. cc; utf8 = refl }

is_node_a : IsOntologyRef (node (codes "A"))
unfolding node utf8_valid
is_node_a = record { kind = refl; named = λ e. cc; utf8 = refl }

maintained_run :
    validate_derived_resource_maintenance plan base_rules new_rules base_indexes new_indexes ≡ ok tt
unfolding validate_derived_resource_maintenance check_constraint_maintenance check_index_maintenance
    transitioned_ontology_ref found_transition parsed_transition renames_of renamed ref_eq kind_eq
    apply_property_rename_list same_texts check_found_constraint expected_targets
    expected_shared_index_properties resolve_properties resolve_property or_conflict
    check_found_index same_ontology_ref_set all_eq find bytes_eq has_prefix cut join sort_by
    insert_by text_leb ontology_string parse_ontology_ref encode_ref_component is_unreserved
    decode_ref_component utf8_valid
maintained_run = refl

validate_derived_resource_maintenance_iff_example :
    (validate_derived_resource_maintenance plan base_rules new_rules base_indexes new_indexes
      ≡ ok tt)
    ↔ (All (ConstraintKept plan new_rules) base_rules
        × All (IndexKept plan new_indexes) base_indexes)
validate_derived_resource_maintenance_iff_example =
    validate_derived_resource_maintenance_iff plan base_rules new_rules base_indexes new_indexes

validate_derived_resource_maintenance-unrenamed_example :
    validate_derived_resource_maintenance unrenamed base_rules [] base_indexes [] ≡ ok tt
validate_derived_resource_maintenance-unrenamed_example =
    validate_derived_resource_maintenance-unrenamed base_rules [] base_indexes []

same_ontology_ref_set_iff_example :
    (same_ontology_ref_set
        (node (codes "B") ∷ node (codes "A") ∷ [])
        (node (codes "A") ∷ node (codes "B") ∷ [])
      ≡ true)
    ↔ Permᴰ (node (codes "B") ∷ node (codes "A") ∷ []) (node (codes "A") ∷ node (codes "B") ∷ [])
same_ontology_ref_set_iff_example =
    same_ontology_ref_set_iff (node (codes "B") ∷ node (codes "A") ∷ [])
      (node (codes "A") ∷ node (codes "B") ∷ []) (is_node_b, (is_node_a, tt))
      (is_node_a, (is_node_b, tt))

abbrev apart : List (Bytes × Bytes)
apart = (codes "node:A", codes "node:B") ∷ (codes "node:C", codes "node:D") ∷ []

NoChain-apart : NoChain apart
unfolding find bytes_eq
NoChain-apart = (refl, (refl, tt))

moved_run :
    apply_endpoint_transitions (some (codes "node:A")) true apart (some (codes "node:A"))
    ≡ ok (some (codes "node:B"))
unfolding apply_endpoint_transitions move_end is_ref move_base_end move_other_end bytes_eq
moved_run = refl

-- With a chain the order of the transitions shows.
chained_runs :
    (apply_endpoint_transitions
        (some (codes "node:A"))
        false
        ((codes "node:A", codes "node:B") ∷ (codes "node:B", codes "node:C") ∷ [])
        (some (codes "node:A"))
      ≡ ok (some (codes "node:C")))
    × (apply_endpoint_transitions
          (some (codes "node:A"))
          false
          ((codes "node:B", codes "node:C") ∷ (codes "node:A", codes "node:B") ∷ [])
          (some (codes "node:A"))
        ≡ ok (some (codes "node:B")))
unfolding apply_endpoint_transitions move_end is_ref move_base_end move_other_end bytes_eq
chained_runs = (refl, refl)

apply_endpoint_transitions-renamed_example :
    some (codes "node:B") ≡ renamed_end apart (some (codes "node:A"))
apply_endpoint_transitions-renamed_example =
    apply_endpoint_transitions-renamed (some (codes "node:A")) true apart (some (codes "node:A"))
      (some (codes "node:B")) NoChain-apart moved_run
