-- ===== src/Kernel/Refs/Ontology.antt =====
-- Ontology Refs: the text of a Ref and the parser are inverse to each other.
use kg_os.Common.{
  Bytes, codes, [], true, ok, ◌≡◌, refl, ◌≢◌, ◌↔◌, arith, inl, inr, Bool-cases, Option-cases,
  utf8_valid, bytes_eq_iff, bytes_eq_refl, has_prefix, cut, append-cut,
}
use kg_os.Kernel.Refs.{
  ObjectKind, domain, node_definition, relationship_definition, knowledge_node,
  knowledge_relationship, OntologyRef, ontology_prefix, ontology_string, parse_name,
  parse_ontology_ref, is_ontology_kind,
}
use kg_os.Kernel.Refs.Component.{encode_ref_component, decode_ref_component}
use kg_os.Kernel.Refs.Encoding.{decode_ref_component-encode, decode_ref_component-utf8}

-- A Ref that has a text: an Ontology kind and a name that is not empty and valid UTF-8.
pub record IsOntologyRef (ref : OntologyRef) : Type 0 where
  pub kind : is_ontology_kind ref.kind ≡ true
  pub named : ref.name ≢ []
  pub utf8 : utf8_valid ref.name ≡ true

parse_name-encode :
    (kind : ObjectKind) (name : Bytes)
    → name ≢ []
    → utf8_valid name ≡ true
    → parse_name kind (encode_ref_component name) ≡ ok (record { kind = kind; name = name })
unfolding parse_name
parse_name-encode kind name h v =
    rw (decode_ref_component-encode name v, parse_name)
      (ground (arith, bytes_eq_iff name [], bytes_eq_refl (encode_ref_component name)))

parse_name_sound :
    (kind : ObjectKind) (encoded : Bytes) (ref : OntologyRef)
    → parse_name kind encoded ≡ ok ref
    → (ref.kind ≡ kind)
      × (encode_ref_component ref.name ≡ encoded)
      × (ref.name ≢ [])
      × (utf8_valid ref.name ≡ true)
unfolding parse_name
parse_name_sound kind encoded ref e = elim (Option-cases (decode_ref_component encoded)) [
  | inl missed ↦ cc (rw (missed, parse_name) at e)
  | inr (name, found) ↦
      let utf8 = decode_ref_component-utf8 encoded found in
      let e' = rw (found, parse_name) at e in
      ground (arith, bytes_eq_iff name [], bytes_eq_iff (encode_ref_component name) encoded)
]

-- The text of a Ref is read back as that Ref.
parse_ontology_ref-string :
    (ref : OntologyRef) → IsOntologyRef ref → parse_ontology_ref (ontology_string ref) ≡ ok ref
unfolding parse_ontology_ref ontology_string has_prefix cut
parse_ontology_ref-string ref v = at ref.kind v.kind ref.name v.named v.utf8
  where
    at :
        (k : ObjectKind)
        → is_ontology_kind k ≡ true
        → (n : Bytes) → n ≢ []
        → utf8_valid n ≡ true
        → parse_ontology_ref (ontology_string (record { kind = k; name = n }))
          ≡ ok (record { kind = k; name = n })
    at domain _ n h u = parse_name-encode domain n h u
    at node_definition _ n h u = parse_name-encode node_definition n h u
    at relationship_definition _ n h u = parse_name-encode relationship_definition n h u
    at knowledge_node e n h u = cc
    at knowledge_relationship e n h u = cc

parse_name-string :
    (kind : ObjectKind) (p value : Bytes) (ref : OntologyRef)
    → ontology_prefix kind ≡ p
    → is_ontology_kind kind ≡ true
    → has_prefix value p ≡ true
    → parse_name kind (cut value p) ≡ ok ref
    → IsOntologyRef ref × (ontology_string ref ≡ value)
unfolding ontology_string
parse_name-string kind p value ref same onto pre e =
    let (k, encoded, named, utf8) = parse_name_sound kind (cut value p) ref e in
    (
      record { kind = rw k onto; named = named; utf8 = utf8 },
      rw (k, same, encoded) (append-cut value p pre),
    )

parse_ontology_ref_sound :
    (value : Bytes) (ref : OntologyRef)
    → parse_ontology_ref value ≡ ok ref
    → IsOntologyRef ref × (ontology_string ref ≡ value)
unfolding parse_ontology_ref
parse_ontology_ref_sound value ref e = elim (Bool-cases (has_prefix value (codes "domain:"))) [
  | inl a ↦ parse_name-string domain _ value ref refl refl a (rw a at e)
  | inr a ↦ elim (Bool-cases (has_prefix value (codes "node:"))) [
    | inl b ↦ parse_name-string node_definition _ value ref refl refl b (rw (a, b) at e)
    | inr b ↦ elim (Bool-cases (has_prefix value (codes "relationship:"))) [
      | inl c ↦
          parse_name-string relationship_definition _ value ref refl refl c (rw (a, b, c) at e)
      | inr c ↦ cc (rw (a, b, c) at e)
    ]
  ]
]

-- Parsing gives a Ref exactly when the text is that Ref's own text and the Ref has an Ontology
-- kind and a name that is not empty and valid UTF-8. So every Ref has one text.
pub parse_ontology_ref_iff :
    (value : Bytes) (ref : OntologyRef)
    → (parse_ontology_ref value ≡ ok ref) ↔ (IsOntologyRef ref × (ontology_string ref ≡ value))
parse_ontology_ref_iff value ref =
    (parse_ontology_ref_sound value ref, λ (v, e). rw (← e) (parse_ontology_ref-string ref v))
