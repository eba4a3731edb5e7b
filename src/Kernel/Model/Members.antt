-- ===== src/Kernel/Model/Members.antt =====
-- Constraints and indexes: `normalizeConstraints`, `normalizeIndexes`,
-- `canonicalizeDefinitionMembers`, and the checks that no two are alike.
use kg_os.Common.{
  Bytes, codes, [], List, ◌∷◌, ◌++◌, map, Bool, true, false, not, ◌||◌, ◌&&◌, Option, none, some,
  if◌then◌else◌, ◌==◌, bytes_eq, length, ok, err, ◌>>=◌, ◌>>◌, has_text, is_distinct, join,
}
use kg_os.Common.Table.{find}
use kg_os.Kernel.Errors.{Result, ErrorCode}
use kg_os.Kernel.Model.{
  Constraint, Index, Property, Definition, refuse, wrong, each_ok, is_nil, validate_public_name,
  normalize_set, check_ref,
}

unfoldable pub check_constraint_type : Bytes → Result (Unit {0})
check_constraint_type t =
    if bytes_eq t (codes "unique") || bytes_eq t (codes "key")
    then ok tt
    else if bytes_eq t (codes "not_null") || bytes_eq t (codes "type")
    then err ErrorCode.unsupported_operation
    else wrong

-- The properties of a member: the one that it stands in, or those that it lists.
abbrev pub effective : Bytes → List Bytes → List Bytes
effective [] properties = properties
effective (b ∷ s) properties = (b ∷ s) ∷ []

unfoldable pub all_known : List Bytes → List Bytes → Bool
all_known names [] = true
all_known names (p ∷ ps) = has_text names p && all_known names ps

-- One round of `normalizeConstraints`; `local` is the property's name, or empty.
unfoldable pub check_constraint : List Bytes → Bytes → Constraint → Result (Unit {0})
unfolding check_constraint_type all_known validate_public_name
check_constraint names local c =
    check_constraint_type c.type_name
    >> ((if is_nil c.name then ok tt else validate_public_name c.name)
        >> (refuse (not (is_nil local) && not (is_nil c.properties))
            >> (refuse (not (all_known names (effective local c.properties)))
                >> (refuse (is_nil (effective local c.properties))
                    >> refuse (not (is_nil c.legacy_value_type))))))

-- The type of a property in capitals; empty where there is no such property.
abbrev or_empty : Option Bytes → Bytes
or_empty none = []
or_empty (some t) = t

unfoldable pub all_strings : List (Bytes × Bytes) → List Bytes → Bool
all_strings types [] = true
all_strings types (p ∷ ps) =
    bytes_eq (or_empty (find p types)) (codes "STRING") && all_strings types ps

abbrev pub is_index_type : Bytes → Bool
is_index_type t =
    bytes_eq t (codes "range")
    || bytes_eq t (codes "text")
    || bytes_eq t (codes "point")
    || bytes_eq t (codes "fulltext")
    || bytes_eq t (codes "vector")

abbrev pub takes_one : Bytes → Bool
takes_one t = bytes_eq t (codes "text") || bytes_eq t (codes "point") || bytes_eq t (codes "vector")

abbrev pub takes_strings : Bytes → Bool
takes_strings t = bytes_eq t (codes "vector") || bytes_eq t (codes "fulltext")

abbrev pub is_standard : Bytes → Bool
is_standard t =
    bytes_eq t (codes "range") || bytes_eq t (codes "text") || bytes_eq t (codes "point")

-- The checks of an index whose targets are in order. A vector index has one property here, so that
-- all of its properties are the first.
unfoldable pub check_index : List (Bytes × Bytes) → List Bytes → Bytes → Index → Result (Unit {0})
unfolding all_known all_strings
check_index types names local i =
    refuse (not (is_nil local) && (not (is_nil i.properties) || not (is_nil i.targets)))
    >> (refuse (is_nil (effective local i.properties))
        >> (refuse (not (all_known names (effective local i.properties)))
            >> (refuse (takes_one i.type_name && not (length (effective local i.properties) == 1))
                >> (refuse (
                      takes_strings i.type_name
                      && not (all_strings types (effective local i.properties)))
                    >> refuse (is_standard i.type_name && not (is_nil i.targets))))))

-- One round of `normalizeIndexes`.
unfoldable pub normalize_index : List (Bytes × Bytes) → List Bytes → Bytes → Index → Result Index
unfolding validate_public_name normalize_set check_ref check_index
normalize_index types names local i =
    validate_public_name i.name
    >> (refuse (not (is_index_type i.type_name))
        >> (normalize_set i.targets >>= λ targets.
            each_ok check_ref targets
            >> (check_index types names local (record i { targets = targets })
                >> ok (record i { targets = targets }))))

-- `findProperty`, and what is put into the property that it finds.
unfoldable pub change_property : (Property → Property) → Bytes → List Property → List Property
change_property f name [] = []
change_property f name (p ∷ ps) =
    let rest = change_property f name ps in if bytes_eq p.name name then f p ∷ ps else p ∷ rest

abbrev pub with_constraint : Constraint → Property → Property
with_constraint c p = record p { constraints = p.constraints ++ record c { properties = [] } ∷ [] }

abbrev pub with_index : Index → Property → Property
with_index i p = record p { indexes = p.indexes ++ record i { properties = [] } ∷ [] }

abbrev pub names_of : List Property → List Bytes
names_of = map (λ p. p.name)

-- The one property of a member, where it has one of these.
unfoldable pub only_property : List Bytes → List Bytes → Option Bytes
only_property names (p ∷ []) = if has_text names p then some p else none
only_property names properties = none

-- A member goes into the property that was found, or remains.
abbrev pub remaining {ℓ} : {A : Type ℓ} → A → Option Bytes → List A → List A
remaining x none xs = x ∷ xs
remaining x (some name) xs = xs

abbrev pub placed : (Property → Property) → Option Bytes → List Property → List Property
placed f none ps = ps
placed f (some name) ps = change_property f name ps

-- The first loop of `canonicalizeDefinitionMembers`: what remains, and the properties.
unfoldable pub move_constraints : List Constraint → List Property → List Constraint × List Property
unfolding only_property change_property
move_constraints [] ps = ([], ps)
move_constraints (c ∷ cs) ps =
    let found = only_property (names_of ps) c.properties in
    let rest = move_constraints cs (placed (with_constraint c) found ps) in
    (remaining c found rest.0, rest.1)

unfoldable pub index_property : List Bytes → Index → Option Bytes
unfolding only_property
index_property names i = if is_nil i.targets then only_property names i.properties else none

-- The second loop.
unfoldable pub move_indexes : List Index → List Property → List Index × List Property
unfolding index_property change_property
move_indexes [] ps = ([], ps)
move_indexes (i ∷ is) ps =
    let found = index_property (names_of ps) i in
    let rest = move_indexes is (placed (with_index i) found ps) in
    (remaining i found rest.0, rest.1)

unfoldable pub canonicalize_definition_members : Definition → Definition
unfolding move_constraints move_indexes
canonicalize_definition_members d =
    let (constraints, properties) = move_constraints d.constraints d.properties in
    let (indexes, properties) = move_indexes d.indexes properties in
    record d { constraints = constraints; indexes = indexes; properties = properties }

-- `constraintSortKey`.
unfoldable pub constraint_sort_key : Constraint → Bytes
constraint_sort_key c =
    if not (is_nil c.name)
    then b'0' ∷ 0 ∷ c.name
    else b'1' ∷ 0 ∷ c.type_name ++ 0 ∷ join (0 ∷ []) c.properties

-- The rule of a constraint and what it covers, as one text.
unfoldable pub coverage : Bytes → Constraint → Bytes
coverage local c = c.type_name ++ 0 ∷ join (0 ∷ []) (effective local c.properties)

-- What `f` gives for each, one after the other.
unfoldable pub gather {ℓ} : {A : Type ℓ} → (A → List Bytes) → List A → List Bytes
gather f [] = []
gather f (x ∷ xs) = f x ++ gather f xs

unfoldable pub coverages : Definition → List Bytes
unfolding coverage gather
coverages d =
    map (coverage []) d.constraints
    ++ gather (λ p. map (coverage p.name) p.constraints) d.properties

-- `validateConstraintDuplicates`.
unfoldable pub validate_constraint_duplicates : Definition → Result (Unit {0})
unfolding coverages
validate_constraint_duplicates d = refuse (not (is_distinct (coverages d)))

abbrev pub given_name : Constraint → List Bytes
given_name c = if is_nil c.name then [] else c.name ∷ []

abbrev pub given_names : List Constraint → List Bytes
given_names cs = gather given_name cs

unfoldable pub constraint_names : Definition → List Bytes
unfolding gather
constraint_names d =
    given_names d.constraints ++ gather (λ p. given_names p.constraints) d.properties

unfoldable pub index_names : Definition → List Bytes
unfolding gather
index_names d =
    map (λ i. i.name) d.indexes ++ gather (λ p. map (λ i. i.name) p.indexes) d.properties

-- `validateResourceNames`; both errors have one code.
unfoldable pub validate_resource_names : Definition → Result (Unit {0})
unfolding constraint_names index_names
validate_resource_names d =
    refuse (not (is_distinct (constraint_names d)) || not (is_distinct (index_names d)))

unfoldable pub has_unique : List Constraint → Bool
has_unique [] = false
has_unique (c ∷ cs) = bytes_eq c.type_name (codes "unique") || has_unique cs

-- `rejectBooleanConstraintDuplicates`.
unfoldable pub reject_boolean_constraint_duplicates : Property → Result (Unit {0})
unfolding has_unique
reject_boolean_constraint_duplicates p = refuse (p.unique && has_unique p.constraints)
