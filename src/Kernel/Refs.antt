-- ===== src/Kernel/Refs.antt =====
-- internal/kernel/refs.go: Object Refs as text.
pub mod Component
pub mod Encoding
pub mod Ontology
pub mod Objects
pub mod Targets
use kg_os.Common.{
  ℕ, Bytes, codes, ◌++◌, ◌∷◌, [], List, Bool, true, false, not, ◌||◌, ◌&&◌, Option, none, some, ok,
  err, ◌>>=◌, ◌>>◌, guard, if◌then◌else◌, ltb, leb, ◌==◌, bytes_eq, has_prefix, cut, parse_uint,
  format_uint, has_leading_zero, length,
}
use kg_os.Kernel.Errors.{Result, ErrorCode}
use kg_os.Kernel.Refs.Component.{encode_ref_component, decode_ref_component}

pub data ObjectKind : Type 0 where
  domain node_definition relationship_definition knowledge_node knowledge_relationship : ObjectKind

pub record OntologyRef : Type 0 where
  pub kind : ObjectKind
  pub name : Bytes

pub record ObjectRef : Type 0 where
  pub kind : ObjectKind
  pub name : Bytes
  pub id : Bytes

abbrev pub invalid {ℓ} : {A : Type ℓ} → Result A
invalid = err ErrorCode.invalid_argument

abbrev pub ontology_prefix : ObjectKind → Bytes
ontology_prefix domain = codes "domain:"
ontology_prefix node_definition = codes "node:"
ontology_prefix relationship_definition = codes "relationship:"
ontology_prefix _ = []

-- `OntologyRef.String`.
unfoldable pub ontology_string : OntologyRef → Bytes
ontology_string ref = ontology_prefix ref.kind ++ encode_ref_component ref.name

-- What `ParseOntologyRef` does once the prefix has told the kind.
parse_name : ObjectKind → Bytes → Result OntologyRef
parse_name kind encoded = elim (decode_ref_component encoded) [
  | none ↦ invalid
  | some name ↦
      if bytes_eq name [] || not (bytes_eq (encode_ref_component name) encoded)
      then invalid
      else ok (record { kind = kind; name = name })
]

unfoldable pub parse_ontology_ref : Bytes → Result OntologyRef
unfolding parse_name
parse_ontology_ref value =
    if has_prefix value (codes "domain:")
    then parse_name domain (cut value (codes "domain:"))
    else if has_prefix value (codes "node:")
    then parse_name node_definition (cut value (codes "node:"))
    else if has_prefix value (codes "relationship:")
    then parse_name relationship_definition (cut value (codes "relationship:"))
    else invalid

abbrev pub is_ontology_kind : ObjectKind → Bool
is_ontology_kind domain = true
is_ontology_kind node_definition = true
is_ontology_kind relationship_definition = true
is_ontology_kind _ = false

-- `ObjectRef.Ontology`.
unfoldable pub to_ontology : ObjectRef → Option OntologyRef
to_ontology ref =
    if is_ontology_kind ref.kind then some (record { kind = ref.kind; name = ref.name }) else none

-- `ObjectRef.String`.
unfoldable pub object_string : ObjectRef → Bytes
unfolding ontology_string
object_string ref = object_string_at ref.kind
  where
    object_string_at : ObjectKind → Bytes
    object_string_at knowledge_node = codes "n:" ++ ref.id
    object_string_at knowledge_relationship = codes "r:" ++ ref.id
    object_string_at kind = ontology_string (record { kind = kind; name = ref.name })

-- The branch of `ParseObjectRef` for the prefixes `n:` and `r:`.
parse_id : ObjectKind → Bytes → Result ObjectRef
parse_id kind id = if bytes_eq id [] || has_leading_zero id then invalid else elim (parse_uint id) [
  | none ↦ invalid
  | some parsed ↦
      if bytes_eq (format_uint parsed) id
      then ok (record { kind = kind; name = []; id = id })
      else invalid
]

object_of : OntologyRef → Result ObjectRef
object_of ref = ok (record { kind = ref.kind; name = ref.name; id = [] })

unfoldable pub parse_object_ref : Bytes → Result ObjectRef
unfolding parse_id object_of parse_ontology_ref
parse_object_ref value =
    if has_prefix value (codes "n:")
    then parse_id knowledge_node (cut value (codes "n:"))
    else if has_prefix value (codes "r:")
    then parse_id knowledge_relationship (cut value (codes "r:"))
    else (parse_ontology_ref value >>= object_of)
