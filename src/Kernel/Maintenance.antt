-- ===== src/Kernel/Maintenance.antt =====
-- internal/kernel/patch_conflict.go: what a planned rename demands of constraints and indexes. A map
-- is the list of its entries, in any order.
pub mod RefSets
pub mod Accepts
pub mod Unrenamed
pub mod Endpoints
use kg_os.Common.{
  Bytes, codes, [], List, ◌∷◌, map, Bool, true, false, not, ◌||◌, ◌&&◌, Option, none, some,
  if◌then◌else◌, ◌==◌, bytes_eq, length, ok, err, ◌>>=◌, ◌>>◌, guard, join, sort_by,
}
use kg_os.Common.Table.{find}
use kg_os.Kernel.Errors.{Result, ErrorCode}
use kg_os.Kernel.Refs.{
  ObjectKind, domain, node_definition, relationship_definition, knowledge_node,
  knowledge_relationship, OntologyRef, ontology_string, parse_ontology_ref,
}
use kg_os.Kernel.Model.{each_ok, is_nil}

abbrev pub Renames : Type 0
Renames = List (Bytes × Bytes)

-- What this code reads of `plannedState`.
pub record Plan : Type 0 where
  pub transitions : List (Bytes × Bytes)
  pub property_renames : List (OntologyRef × Renames)

pub record ConstraintSpec : Type 0 where
  pub name : Bytes
  pub owner : OntologyRef
  pub type_name : Bytes
  pub properties : List Bytes

pub record LogicalIndex : Type 0 where
  pub name : Bytes
  pub type_name : Bytes
  pub targets : List OntologyRef
  pub properties : List Bytes

unfoldable pub kind_eq : ObjectKind → ObjectKind → Bool
kind_eq domain domain = true
kind_eq node_definition node_definition = true
kind_eq relationship_definition relationship_definition = true
kind_eq knowledge_node knowledge_node = true
kind_eq knowledge_relationship knowledge_relationship = true
kind_eq _ _ = false

unfoldable pub ref_eq : OntologyRef → OntologyRef → Bool
unfolding kind_eq
ref_eq a b = kind_eq a.kind b.kind && bytes_eq a.name b.name

-- `plan.PropertyRenames[ref]`.
unfoldable pub renames_of : OntologyRef → List (OntologyRef × Renames) → Renames
unfolding ref_eq
renames_of ref [] = []
renames_of ref ((r, renames) ∷ rest) = if ref_eq r ref then renames else renames_of ref rest

abbrev renamed_to : Bytes → Option Bytes → Bytes
renamed_to property none = property
renamed_to property (some next) = next

unfoldable pub renamed : Renames → Bytes → Bytes
renamed renames property = renamed_to property (find property renames)

-- `applyPropertyRenameList`.
unfoldable pub apply_property_rename_list : List Bytes → Renames → List Bytes
unfolding renamed
apply_property_rename_list properties renames = map (renamed renames) properties

unfoldable pub same_texts : List Bytes → List Bytes → Bool
same_texts xs ys = bytes_eq (join (0 ∷ []) xs) (join (0 ∷ []) ys)

unfoldable pub parsed_transition : Result OntologyRef → Result (OntologyRef × Bool)
parsed_transition (ok ref) = ok (ref, true)
parsed_transition (err e) = err ErrorCode.consistency_error

unfoldable pub found_transition : OntologyRef → Option Bytes → Result (OntologyRef × Bool)
unfolding parsed_transition
found_transition ref none = ok (ref, false)
found_transition ref (some raw) = parsed_transition (parse_ontology_ref raw)

-- `transitionedOntologyRef`.
unfoldable pub transitioned_ontology_ref : Plan → OntologyRef → Result (OntologyRef × Bool)
unfolding found_transition
transitioned_ontology_ref plan ref =
    found_transition ref (find (ontology_string ref) plan.transitions)

unfoldable pub all_eq : List OntologyRef → List OntologyRef → Bool
all_eq (a ∷ xs) (b ∷ bs) = ref_eq a b && all_eq xs bs
all_eq _ _ = true

-- `sameOntologyRefSet`.
unfoldable pub same_ontology_ref_set : List OntologyRef → List OntologyRef → Bool
unfolding all_eq
same_ontology_ref_set left right =
    length left == length right
    && all_eq (sort_by ontology_string left) (sort_by ontology_string right)

abbrev conflict_if : Bool → Result (Unit {0})
conflict_if bad = guard (not bad) ErrorCode.object_conflict

-- The inner loop of `expectedSharedIndexProperties`; `resolved` is empty before the first target.
unfoldable pub resolve_property : Plan → Bytes → Bytes → List OntologyRef → Result Bytes
unfolding transitioned_ontology_ref renames_of renamed
resolve_property plan property resolved [] = ok (if is_nil resolved then property else resolved)
resolve_property plan property resolved (target ∷ targets) =
    transitioned_ontology_ref plan target >>= λ (expected, changed).
    let candidate = renamed (renames_of expected plan.property_renames) property in
    conflict_if (not (is_nil resolved) && not (bytes_eq candidate resolved))
    >> resolve_property plan property (if is_nil resolved then candidate else resolved) targets

unfoldable pub resolve_properties :
    Plan → List OntologyRef → List Bytes → Result (List Bytes × Bool)
unfolding resolve_property
resolve_properties plan targets [] = ok ([], false)
resolve_properties plan targets (property ∷ properties) =
    resolve_property plan property [] targets >>= λ resolved.
    resolve_properties plan targets properties >>= λ (rest, changed).
    ok (resolved ∷ rest, not (bytes_eq resolved property) || changed)

-- `expectedSharedIndexProperties`.
unfoldable pub expected_shared_index_properties : Plan → LogicalIndex → Result (List Bytes × Bool)
unfolding resolve_properties
expected_shared_index_properties plan base = resolve_properties plan base.targets base.properties

unfoldable pub expected_targets : Plan → List OntologyRef → Result (List OntologyRef × Bool)
unfolding transitioned_ontology_ref
expected_targets plan [] = ok ([], false)
expected_targets plan (target ∷ targets) =
    transitioned_ontology_ref plan target >>= λ (expected, changed).
    expected_targets plan targets >>= λ (rest, other). ok (expected ∷ rest, changed || other)

unfoldable pub check_found_constraint :
    OntologyRef → List Bytes → Option ConstraintSpec → Result (Unit {0})
unfolding ref_eq same_texts
check_found_constraint owner properties none = err ErrorCode.object_conflict
check_found_constraint owner properties (some target) =
    conflict_if (not (ref_eq target.owner owner))
    >> conflict_if (not (same_texts target.properties properties))

-- One round of the first loop of `validateDerivedResourceMaintenance`.
unfoldable pub check_constraint_maintenance :
    Plan → List (Bytes × ConstraintSpec) → Bytes × ConstraintSpec → Result (Unit {0})
unfolding transitioned_ontology_ref renames_of apply_property_rename_list check_found_constraint
check_constraint_maintenance plan targets (name, base) =
    transitioned_ontology_ref plan base.owner >>= λ (owner, changed).
    let expected =
      apply_property_rename_list base.properties (renames_of owner plan.property_renames) in
    if not changed && same_texts expected base.properties
    then ok tt
    else check_found_constraint owner expected (find name targets)

unfoldable pub or_conflict : Result (List Bytes × Bool) → Result (List Bytes × Bool)
or_conflict (ok found) = ok found
or_conflict (err e) = err ErrorCode.object_conflict

unfoldable pub check_found_index :
    List OntologyRef → List Bytes → Option LogicalIndex → Result (Unit {0})
unfolding same_ontology_ref_set same_texts
check_found_index refs properties none = err ErrorCode.object_conflict
check_found_index refs properties (some target) =
    conflict_if (not (same_ontology_ref_set target.targets refs))
    >> conflict_if (not (same_texts target.properties properties))

-- One round of the second loop.
unfoldable pub check_index_maintenance :
    Plan → List (Bytes × LogicalIndex) → Bytes × LogicalIndex → Result (Unit {0})
unfolding expected_targets expected_shared_index_properties or_conflict check_found_index
check_index_maintenance plan targets (name, base) =
    expected_targets plan base.targets >>= λ (refs, moved).
    or_conflict (expected_shared_index_properties plan base) >>= λ (properties, changed).
    if not (moved || changed) then ok tt else check_found_index refs properties (find name targets)

-- `validateDerivedResourceMaintenance`.
unfoldable pub validate_derived_resource_maintenance :
    Plan
    → List (Bytes × ConstraintSpec)
    → List (Bytes × ConstraintSpec)
    → List (Bytes × LogicalIndex)
    → List (Bytes × LogicalIndex)
    → Result (Unit {0})
unfolding check_constraint_maintenance check_index_maintenance
validate_derived_resource_maintenance plan base_constraints target_constraints base_indexes
      target_indexes =
    each_ok (check_constraint_maintenance plan target_constraints) base_constraints
    >> each_ok (check_index_maintenance plan target_indexes) base_indexes
