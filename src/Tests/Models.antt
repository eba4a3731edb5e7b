-- ===== src/Tests/Models.antt =====
-- Domains and Definitions: internal/kernel/model.go.
use kg_os.Common.{
  Bytes, codes, [], List, ◌∷◌, Bool, true, false, none, ok, ◌≡◌, refl, trim_space, to_upper,
  contains_text, text_leb, sort_by, insert_by, has_text, is_distinct, join, bytes_eq, has_prefix,
}
use mathlib.Core.List.Permᴰ.{swap}
use kg_os.Common.Table.{find}
use kg_os.Kernel.Refs.{node_definition}
use kg_os.Kernel.Model.{
  Domain, Constraint, Index, Property, Definition, validate_public_name, has_control, normalize_set,
  check_ref, normalize_domain,
}
use kg_os.Kernel.Model.Types.{
  normalize_property_nullability, of_union, with_members, any_not_null, all_not_null,
  trim_top_level_not_null, has_suffix, split_top_level_type_union, split_from, split_step,
}
use kg_os.Kernel.Model.Members.{
  check_constraint, check_constraint_type, all_known, all_strings, check_index, normalize_index,
  change_property, only_property, index_property, move_constraints, move_indexes,
  canonicalize_definition_members, constraint_sort_key, coverage, coverages, gather,
  validate_constraint_duplicates, constraint_names, index_names, validate_resource_names,
  has_unique, reject_boolean_constraint_duplicates,
}
use kg_os.Kernel.Model.Definitions.{
  is_given, check_label, normalize_ends, normalize_property, normalize_properties,
  normalize_members, order_members, normalize_rest, order_definition, is_definition,
  normalize_typed, normalize_definition,
}
use kg_os.Kernel.Model.Domains.{
  normalize_domain-Perm, normalize_domain-IsCanonicalDomain, IsCanonicalDomain,
}
use kg_os.Kernel.Model.Normalized.{normalize_definition-IsNormalized, IsNormalized}

abbrev domain_of : List Bytes → Domain
domain_of includes = record {
  name = codes "people";
  title = none;
  description = none;
  includes = includes;
}

abbrev person_ref : Bytes
person_ref = codes "new:node/person"

abbrev city_ref : Bytes
city_ref = codes "new:node/city"

people : Domain
people = domain_of (person_ref ∷ city_ref ∷ [])

normalize_domain-run : normalize_domain people ≡ ok (domain_of (city_ref ∷ person_ref ∷ []))
unfolding people normalize_domain validate_public_name has_control has_prefix normalize_set
    is_distinct has_text bytes_eq sort_by insert_by text_leb check_ref
normalize_domain-run = refl

normalize_domain-Perm_example :
    normalize_domain (domain_of (city_ref ∷ person_ref ∷ [])) ≡ normalize_domain people
unfolding people
normalize_domain-Perm_example =
    normalize_domain-Perm people (city_ref ∷ person_ref ∷ []) (swap refl refl)

normalize_domain-IsCanonicalDomain_example :
    IsCanonicalDomain people (domain_of (city_ref ∷ person_ref ∷ []))
normalize_domain-IsCanonicalDomain_example =
    normalize_domain-IsCanonicalDomain people (domain_of (city_ref ∷ person_ref ∷ []))
      normalize_domain-run

abbrev rule : Bytes → List Bytes → Constraint
rule name properties = record {
  name = name;
  type_name = codes "unique";
  properties = properties;
  legacy_value_type = [];
}

abbrev index : List Bytes → Index
index properties = record {
  name = codes "by_age";
  type_name = codes "range";
  targets = [];
  properties = properties;
  hidden_options = [];
}

abbrev property : Bytes → Bytes → Bool → List Constraint → List Index → Property
property name type_text required constraints indexes = record {
  name = name;
  title = none;
  description = none;
  type_text = type_text;
  required = required;
  unique = false;
  constraints = constraints;
  indexes = indexes;
  rename_from = [];
}

abbrev definition : List Bytes → List Property → List Constraint → List Index → Definition
definition labels properties constraints indexes = record {
  kind = node_definition;
  name = codes "Person";
  title = none;
  description = none;
  labels = labels;
  from = none;
  to = none;
  properties = properties;
  constraints = constraints;
  indexes = indexes;
}

abbrev name : Bytes
name = codes "name"

abbrev age : Bytes
age = codes "age"

-- A constraint and an index of one property each, and a rule of two.
given : Definition
given =
    definition (codes "Human" ∷ codes "Being" ∷ [])
      (property name (codes " string not null ") false [] []
        ∷ property age (codes "INTEGER") false [] []
        ∷ [])
      (rule (codes "once") (age ∷ []) ∷ rule [] (name ∷ age ∷ []) ∷ []) (index (age ∷ []) ∷ [])

normalized : Definition
normalized =
    definition (codes "Being" ∷ codes "Human" ∷ [])
      (property age (codes "INTEGER") false (rule (codes "once") [] ∷ []) (index [] ∷ [])
        ∷ property name (codes "string") true [] []
        ∷ [])
      (rule [] (name ∷ age ∷ []) ∷ []) []

normalize_definition-run : normalize_definition given ≡ ok normalized
unfolding given normalized normalize_definition normalize_typed is_definition validate_public_name
    has_control has_prefix normalize_ends is_given normalize_set is_distinct has_text bytes_eq
    sort_by insert_by text_leb check_label normalize_properties normalize_property trim_space
    normalize_property_nullability of_union with_members any_not_null all_not_null
    trim_top_level_not_null has_suffix to_upper split_top_level_type_union split_from split_step
    contains_text join normalize_members check_constraint check_constraint_type all_known
    normalize_index check_index all_strings find normalize_rest canonicalize_definition_members
    move_constraints move_indexes only_property index_property change_property order_definition
    order_members reject_boolean_constraint_duplicates has_unique constraint_sort_key
    validate_resource_names constraint_names index_names gather validate_constraint_duplicates
    coverages coverage
normalize_definition-run = refl

normalize_definition-IsNormalized_example : IsNormalized given normalized
normalize_definition-IsNormalized_example =
    normalize_definition-IsNormalized given normalized normalize_definition-run
