-- ===== src/Kernel/Model/Definitions.antt =====
-- `normalizeDefinition` of internal/kernel/model.go.
use kg_os.Common.{
  Bytes, codes, [], List, ◌∷◌, map, Bool, true, false, not, ◌||◌, Option, none, some, if◌then◌else◌,
  bytes_eq, ok, ◌>>=◌, ◌>>◌, guard, has_text, trim_space, to_upper, contains_text, sort_by,
}
use kg_os.Kernel.Errors.{Result, ErrorCode}
use kg_os.Kernel.Refs.{ObjectKind, node_definition, relationship_definition}
use kg_os.Kernel.Model.{
  Property, Definition, refuse, wrong, each_ok, map_ok, is_nil, validate_public_name, normalize_set,
  check_endpoint,
}
use kg_os.Kernel.Model.Types.{normalize_property_nullability}
use kg_os.Kernel.Model.Members.{
  check_constraint, normalize_index, names_of, canonicalize_definition_members, constraint_sort_key,
  validate_constraint_duplicates, validate_resource_names, reject_boolean_constraint_duplicates,
}

unfoldable pub is_given : Option Bytes → Bool
is_given none = false
is_given (some s) = true

-- A label of a Definition of that name.
unfoldable pub check_label : Bytes → Bytes → Result (Unit {0})
unfolding validate_public_name
check_label name label = validate_public_name label >> refuse (bytes_eq label name)

-- What each kind may have; the labels come back in order.
unfoldable pub normalize_ends : Definition → ObjectKind → Result (List Bytes)
unfolding is_given normalize_set check_label check_endpoint
normalize_ends d node_definition =
    refuse (is_given d.from || is_given d.to)
    >> (normalize_set d.labels >>= λ labels. each_ok (check_label d.name) labels >> ok labels)
normalize_ends d relationship_definition =
    refuse (not (is_nil d.labels))
    >> (check_endpoint d.from >> (check_endpoint d.to >> ok d.labels))
normalize_ends d other = wrong

-- The first loop over the properties, at one that does not repeat a name.
unfoldable pub normalize_property : Property → Result Property
unfolding normalize_property_nullability validate_public_name
normalize_property p =
    let trimmed : Property = record p { type_text = trim_space p.type_text } in
    refuse (is_nil trimmed.type_text)
    >> (normalize_property_nullability trimmed >>= λ q.
        guard (not (contains_text (to_upper q.type_text) (codes "VECTOR")))
          ErrorCode.unsupported_operation
        >> ((if is_nil q.rename_from then ok tt else validate_public_name q.rename_from) >> ok q))

-- That loop; `seen` are the names before.
unfoldable pub normalize_properties : List Bytes → List Property → Result (List Property)
unfolding normalize_property has_text validate_public_name
normalize_properties seen [] = ok []
normalize_properties seen (p ∷ ps) =
    validate_public_name p.name
    >> (refuse (has_text seen p.name)
        >> (normalize_property p >>= λ q.
            normalize_properties (p.name ∷ seen) ps >>= λ qs. ok (q ∷ qs)))

abbrev pub types_of : List Property → List (Bytes × Bytes)
types_of = map (λ p. (p.name, to_upper p.type_text))

-- The second loop, at one property.
unfoldable pub normalize_members : List (Bytes × Bytes) → List Bytes → Property → Result Property
unfolding check_constraint normalize_index
normalize_members types names p =
    each_ok (check_constraint names p.name) p.constraints
    >> (map_ok (normalize_index types names p.name) p.indexes >>= λ indexes.
        ok (record p { indexes = indexes }))

-- The third loop, at one property.
unfoldable pub order_members : Property → Result Property
unfolding reject_boolean_constraint_duplicates
order_members p =
    reject_boolean_constraint_duplicates p
    >> ok (record p {
      constraints = sort_by constraint_sort_key p.constraints;
      indexes = sort_by (λ i. i.name) p.indexes;
    })

-- The members of the Definition itself, and what follows.
unfoldable pub normalize_rest : List (Bytes × Bytes) → List Bytes → Definition → Result Definition
unfolding check_constraint normalize_index canonicalize_definition_members
normalize_rest types names d =
    each_ok (check_constraint names []) d.constraints
    >> (map_ok (normalize_index types names []) d.indexes >>= λ indexes.
        ok (canonicalize_definition_members (record d { indexes = indexes })))

abbrev pub ordered : Definition → Definition
ordered d = record d {
  properties = sort_by (λ p. p.name) d.properties;
  constraints = sort_by constraint_sort_key d.constraints;
  indexes = sort_by (λ i. i.name) d.indexes;
}

unfoldable pub order_definition : Definition → Result Definition
unfolding order_members validate_resource_names validate_constraint_duplicates
order_definition d = map_ok order_members d.properties >>= λ properties.
    let e : Definition = record d { properties = properties } in
    validate_resource_names e >> (validate_constraint_duplicates e >> ok (ordered e))

unfoldable pub is_definition : ObjectKind → Bool
is_definition node_definition = true
is_definition relationship_definition = true
is_definition other = false

-- From the second loop on, with the properties of the first.
unfoldable pub normalize_typed : Definition → List Bytes → List Property → Result Definition
unfolding normalize_members normalize_rest order_definition
normalize_typed d labels typed =
    map_ok (normalize_members (types_of typed) (names_of typed)) typed >>= λ properties.
    normalize_rest (types_of typed) (names_of typed)
      (record d { labels = labels; properties = properties })
    >>= λ e. order_definition e

-- `normalizeDefinition`.
unfoldable pub normalize_definition : Definition → Result Definition
unfolding is_definition validate_public_name normalize_ends normalize_properties normalize_typed
normalize_definition d =
    refuse (not (is_definition d.kind))
    >> (validate_public_name d.name
        >> (guard (not (is_nil d.properties)) ErrorCode.invalid_argument
            >> (normalize_ends d d.kind >>= λ labels.
                normalize_properties [] d.properties >>= λ typed. normalize_typed d labels typed)))
