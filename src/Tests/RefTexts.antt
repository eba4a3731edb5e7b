-- ===== src/Tests/RefTexts.antt =====
-- Refs: internal/kernel/refs.go.
use kg_os.Common.{
  Bytes, codes, ◌∷◌, [], ok, err, some, ◌≡◌, refl, ◌↔◌, true, utf8_valid, has_prefix, cut, bytes_eq,
  parse_uint, format_uint,
}
use kg_os.Kernel.Errors.{ErrorCode}
use kg_os.Kernel.Refs.{
  node_definition, knowledge_node, OntologyRef, ObjectRef, ontology_string, parse_ontology_ref,
  object_string, parse_object_ref, is_ontology_kind,
}
use kg_os.Kernel.Refs.Component.{
  encode_ref_component, decode_ref_component, is_unreserved, hex_digit,
}
use kg_os.Kernel.Refs.Encoding.{decode_ref_component-encode}
use kg_os.Kernel.Refs.Ontology.{IsOntologyRef, parse_ontology_ref_iff}
use kg_os.Kernel.Refs.Objects.{IsObjectRef, parse_object_ref_iff}
use kg_os.Kernel.Refs.Targets.{
  IsAlias, target_text, parse_new_object_target, parse_new_object_target_iff, parse_new_target,
  parse_new_target_iff,
}

-- A name of three bytes: a space and a two-byte character.
abbrev name : Bytes
name = 0x20 ∷ 0xC3 ∷ 0xA9 ∷ []

encode_test : encode_ref_component name ≡ codes "%20%C3%A9"
unfolding encode_ref_component is_unreserved hex_digit
encode_test = refl

decode_ref_component-encode_example : decode_ref_component (encode_ref_component name) ≡ some name
unfolding utf8_valid
decode_ref_component-encode_example = decode_ref_component-encode name refl

abbrev node_ref : OntologyRef
node_ref = record { kind = node_definition; name = name }

parse_ontology_ref_iff_example :
    (parse_ontology_ref (codes "node:%20%C3%A9") ≡ ok node_ref)
    ↔ (IsOntologyRef node_ref × (ontology_string node_ref ≡ codes "node:%20%C3%A9"))
parse_ontology_ref_iff_example = parse_ontology_ref_iff (codes "node:%20%C3%A9") node_ref

abbrev knowledge_ref : ObjectRef
knowledge_ref = record { kind = knowledge_node; name = []; id = codes "42" }

parse_test : parse_object_ref (codes "n:42") ≡ ok knowledge_ref
unfolding parse_object_ref has_prefix cut bytes_eq parse_uint format_uint
parse_test = refl

leading_zero_test : parse_object_ref (codes "n:042") ≡ err ErrorCode.invalid_argument
unfolding parse_object_ref has_prefix cut bytes_eq parse_uint format_uint
leading_zero_test = refl

parse_object_ref_iff_example :
    (parse_object_ref (codes "n:42") ≡ ok knowledge_ref)
    ↔ (IsObjectRef knowledge_ref × (object_string knowledge_ref ≡ codes "n:42"))
parse_object_ref_iff_example = parse_object_ref_iff (codes "n:42") knowledge_ref

parse_new_object_target_iff_example :
    (parse_new_object_target (codes "new:knowledge-node:a") ≡ ok (knowledge_node, codes "a")) ↔ (
      IsAlias (codes "a") × (codes "new:knowledge-node:a" ≡ target_text knowledge_node (codes "a")))
parse_new_object_target_iff_example =
    parse_new_object_target_iff (codes "new:knowledge-node:a") knowledge_node (codes "a")

parse_new_target_iff_example :
    (parse_new_target (codes "new:node-definition:a") ≡ ok (node_definition, codes "a")) ↔ (
      (is_ontology_kind node_definition ≡ true)
      × IsAlias (codes "a")
      × (codes "new:node-definition:a" ≡ target_text node_definition (codes "a")))
parse_new_target_iff_example =
    parse_new_target_iff (codes "new:node-definition:a") node_definition (codes "a")
