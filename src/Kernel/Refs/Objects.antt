-- ===== src/Kernel/Refs/Objects.antt =====
-- Object Refs, of Ontology and of Knowledge objects.
use kg_os.Common.{
  ℕ, ◌≤◌, Bytes, codes, ◌++◌, [], true, false, ok, ◌≡◌, refl, sym, ap, ◌∙◌, subst, ◌↔◌, arith, inl,
  inr, Bool-cases, Option-cases, bytes_eq_iff, bytes_eq_refl, has_prefix, cut, append-cut, max_u64,
  parse_uint, parse_uint-le, parse_uint-format_uint, format_uint, format_uint-ne-nil,
  has_leading_zero-format_uint, ◌>>=◌, >>=-eq-ok,
}
use kg_os.Kernel.Refs.{
  ObjectKind, domain, node_definition, relationship_definition, knowledge_node,
  knowledge_relationship, ontology_string, parse_ontology_ref, ObjectRef, is_ontology_kind,
  object_string, parse_object_ref, parse_id, object_of,
}
use kg_os.Kernel.Refs.Ontology.{IsOntologyRef, parse_ontology_ref_iff}

-- The Ref of a Knowledge object: no name, and for its id the decimal of a 64-bit number.
abbrev pub IsKnowledgeId : Bytes → Bytes → Type 0
IsKnowledgeId name id = (name ≡ []) × (n : ℕ) × (n ≤ max_u64) × (id ≡ format_uint n)

abbrev IsRefAt : ObjectKind → Bytes → Bytes → Type 0
IsRefAt knowledge_node name id = IsKnowledgeId name id
IsRefAt knowledge_relationship name id = IsKnowledgeId name id
IsRefAt kind name id = (id ≡ []) × IsOntologyRef (record { kind = kind; name = name })

-- A Ref that has a text.
abbrev pub IsObjectRef : ObjectRef → Type 0
IsObjectRef ref = IsRefAt ref.kind ref.name ref.id

parse_id-format_uint :
    (kind : ObjectKind) (n : ℕ)
    → n ≤ max_u64
    → parse_id kind (format_uint n) ≡ ok (record { kind = kind; name = []; id = format_uint n })
unfolding parse_id
parse_id-format_uint kind n h =
    rw (parse_uint-format_uint n h, parse_id)
      (ground (
        arith,
        bytes_eq_iff (format_uint n) [],
        format_uint-ne-nil n,
        has_leading_zero-format_uint n,
        bytes_eq_refl (format_uint n),
      ))

parse_id_sound :
    (kind : ObjectKind) (id : Bytes) (ref : ObjectRef)
    → parse_id kind id ≡ ok ref
    → (ref.kind ≡ kind) × (ref.id ≡ id) × IsKnowledgeId ref.name id
unfolding parse_id
parse_id_sound kind id ref e = elim (Option-cases (parse_uint id)) [
  | inl missed ↦ absurd (ground (arith, missed))
  | inr (n, found) ↦
      let parts : (ref.kind ≡ kind) × (ref.id ≡ id) × (ref.name ≡ []) × (id ≡ format_uint n) =
        ground (arith, found, bytes_eq_iff (format_uint n) id) in
      (parts.0, parts.1, (parts.2, n, parse_uint-le id found, parts.3))
]

ontology_at :
    (ref : ObjectRef)
    → is_ontology_kind ref.kind ≡ true
    → parse_object_ref (object_string ref) ≡ (
        parse_ontology_ref (ontology_string (record { kind = ref.kind; name = ref.name }))
        >>= object_of)
unfolding parse_object_ref object_string ontology_string has_prefix
ontology_at ref h = at ref.kind ref.name ref.id h
  where
    at :
        (k : ObjectKind) (n i : Bytes)
        → is_ontology_kind k ≡ true
        → parse_object_ref (object_string (record { kind = k; name = n; id = i }))
          ≡ (parse_ontology_ref (ontology_string (record { kind = k; name = n })) >>= object_of)
    at domain n i h = refl
    at node_definition n i h = refl
    at relationship_definition n i h = refl
    at knowledge_node n i h = cc
    at knowledge_relationship n i h = cc

parse_object_ref-ontology :
    (k : ObjectKind) (n i : Bytes)
    → is_ontology_kind k ≡ true
    → i ≡ []
    → IsOntologyRef (record { kind = k; name = n })
    → parse_object_ref (object_string (record { kind = k; name = n; id = i }))
      ≡ ok (record { kind = k; name = n; id = i })
unfolding object_of
parse_object_ref-ontology k n i onto e v = rw (
  ontology_at (record { kind = k; name = n; id = i }) onto,
  (parse_ontology_ref_iff _ (record { kind = k; name = n })).1 (v, refl),
  e,
)

node_at :
    (n i : Bytes)
    → parse_object_ref (object_string (record { kind = knowledge_node; name = n; id = i }))
      ≡ parse_id knowledge_node i
unfolding parse_object_ref object_string has_prefix cut
node_at n i = refl

relationship_at :
    (n i : Bytes)
    → parse_object_ref (object_string (record { kind = knowledge_relationship; name = n; id = i }))
      ≡ parse_id knowledge_relationship i
unfolding parse_object_ref object_string has_prefix cut
relationship_at n i = refl

parse_object_ref-knowledge :
    (k : ObjectKind) (n i : Bytes)
    → is_ontology_kind k ≡ false
    → IsKnowledgeId n i
    → parse_object_ref (object_string (record { kind = k; name = n; id = i }))
      ≡ ok (record { kind = k; name = n; id = i })
parse_object_ref-knowledge knowledge_node n i h (e, m, small, same) =
    rw (node_at n i, e, same) (parse_id-format_uint knowledge_node m small)
parse_object_ref-knowledge knowledge_relationship n i h (e, m, small, same) =
    rw (relationship_at n i, e, same) (parse_id-format_uint knowledge_relationship m small)
parse_object_ref-knowledge _ n i h v = cc

parse_object_ref-string :
    (ref : ObjectRef) → IsObjectRef ref → parse_object_ref (object_string ref) ≡ ok ref
parse_object_ref-string ref v = at ref.kind ref.name ref.id v
  where
    at :
        (k : ObjectKind) (n i : Bytes)
        → IsRefAt k n i
        → parse_object_ref (object_string (record { kind = k; name = n; id = i }))
          ≡ ok (record { kind = k; name = n; id = i })
    at domain n i (e, v) = parse_object_ref-ontology domain n i refl e v
    at node_definition n i (e, v) = parse_object_ref-ontology node_definition n i refl e v
    at relationship_definition n i (e, v) =
        parse_object_ref-ontology relationship_definition n i refl e v
    at knowledge_node n i v = parse_object_ref-knowledge knowledge_node n i refl v
    at knowledge_relationship n i v = parse_object_ref-knowledge knowledge_relationship n i refl v

IsRefAt-of_ontology :
    (k : ObjectKind) (n i : Bytes)
    → i ≡ []
    → IsOntologyRef (record { kind = k; name = n })
    → IsRefAt k n i
IsRefAt-of_ontology domain n i e v = (e, v)
IsRefAt-of_ontology node_definition n i e v = (e, v)
IsRefAt-of_ontology relationship_definition n i e v = (e, v)
IsRefAt-of_ontology knowledge_node n i e v = cc (v.kind)
IsRefAt-of_ontology knowledge_relationship n i e v = cc (v.kind)

IsRefAt-of_knowledge :
    (k : ObjectKind) (n i : Bytes) → is_ontology_kind k ≡ false → IsKnowledgeId n i → IsRefAt k n i
IsRefAt-of_knowledge knowledge_node n i e v = v
IsRefAt-of_knowledge knowledge_relationship n i e v = v
IsRefAt-of_knowledge _ n i e v = cc

-- The text of a Ref by its kind.
object_string_lem :
    (ref : ObjectRef)
    → (ref.kind ≡ knowledge_node → object_string ref ≡ codes "n:" ++ ref.id)
      × (ref.kind ≡ knowledge_relationship → object_string ref ≡ codes "r:" ++ ref.id)
      × (is_ontology_kind ref.kind ≡ true
          → object_string ref ≡ ontology_string (record { kind = ref.kind; name = ref.name }))
unfolding object_string
object_string_lem ref = at ref.kind ref.name ref.id
  where
    at :
        (k : ObjectKind) (n i : Bytes)
        → let r : ObjectRef = record { kind = k; name = n; id = i } in
          (k ≡ knowledge_node → object_string r ≡ codes "n:" ++ i)
          × (k ≡ knowledge_relationship → object_string r ≡ codes "r:" ++ i)
          × (is_ontology_kind k ≡ true
              → object_string r ≡ ontology_string (record { kind = k; name = n }))
    at domain n i = (λ e. cc, λ e. cc, λ e. refl)
    at node_definition n i = (λ e. cc, λ e. cc, λ e. refl)
    at relationship_definition n i = (λ e. cc, λ e. cc, λ e. refl)
    at knowledge_node n i = (λ e. refl, λ e. cc, λ e. cc)
    at knowledge_relationship n i = (λ e. cc, λ e. refl, λ e. cc)

parse_object_ref_sound :
    (value : Bytes) (ref : ObjectRef)
    → parse_object_ref value ≡ ok ref
    → IsObjectRef ref × (object_string ref ≡ value)
unfolding parse_object_ref object_of
parse_object_ref_sound value ref e = elim (Bool-cases (has_prefix value (codes "n:"))) [
  | inl a ↦
      let (k, same, v) = parse_id_sound knowledge_node _ ref (rw a at e) in
      (
        IsRefAt-of_knowledge ref.kind ref.name ref.id (rw k refl) (rw same v),
        (object_string_lem ref).0 k ∙ ap (λ s. codes "n:" ++ s) same ∙ append-cut value _ a,
      )
  | inr a ↦ elim (Bool-cases (has_prefix value (codes "r:"))) [
    | inl b ↦
        let (k, same, v) = parse_id_sound knowledge_relationship _ ref (rw (a, b) at e) in
        (
          IsRefAt-of_knowledge ref.kind ref.name ref.id (rw k refl) (rw same v),
          (object_string_lem ref).1 k ∙ ap (λ s. codes "r:" ++ s) same ∙ append-cut value _ b,
        )
    | inr b ↦
        let (o, parsed, same) = >>=-eq-ok (parse_ontology_ref value) object_of (rw (a, b) at e) in
        let (v, text) = (parse_ontology_ref_iff value o).0 parsed in
        let parts : (o.kind ≡ ref.kind) × (o.name ≡ ref.name) × (ref.id ≡ []) = (cc, cc, cc) in
        let onto = subst IsOntologyRef (λ i. record { kind = parts.0 i; name = parts.1 i }) v in
        (
          IsRefAt-of_ontology ref.kind ref.name ref.id parts.2 onto,
          (object_string_lem ref).2 onto.kind
              ∙ ap ontology_string (λ i. record { kind = sym parts.0 i; name = sym parts.1 i })
              ∙ text,
        )
  ]
]

-- Parsing gives a Ref exactly when the text is that Ref's own text and the Ref is well formed:
-- an Ontology Ref as above, or a Knowledge Ref whose id is the decimal of a 64-bit number.
pub parse_object_ref_iff :
    (value : Bytes) (ref : ObjectRef)
    → (parse_object_ref value ≡ ok ref) ↔ (IsObjectRef ref × (object_string ref ≡ value))
parse_object_ref_iff value ref =
    (parse_object_ref_sound value ref, λ (v, e). rw (← e) (parse_object_ref-string ref v))
