-- ===== src/Kernel/Refs/Targets.antt =====
-- `parseNewObjectTarget` and `parseNewTarget` of internal/kernel/refs.go: the request-local names
-- of new objects, `new:<kind>:<alias>`.
use kg_os.Common.{
  ◌≤◌, Bytes, codes, ◌++◌, ◌∷◌, [], Bool, ◌||◌, not, true, false, ok, ◌≡◌, refl, ◌≢◌, ◌↔◌, arith,
  inl, inr, Bool-cases, Option-cases, Option, some, none, bytes_eq, bytes_eq_iff, bytes_eq_refl,
  has_prefix, cut, append-cut, cut-append, has_prefix-append, split_byte, split_byte-append,
  append-split_byte, utf8_valid, length, ltb, ◌==◌, ◌>>=◌, >>=-eq-ok, Lacks, subst, sym, ap, ◌∙◌,
  if◌then◌else◌,
}
use kg_os.Kernel.Errors.{Result}
use kg_os.Kernel.Refs.{
  ObjectKind, domain, node_definition, relationship_definition, knowledge_node,
  knowledge_relationship, is_ontology_kind, invalid,
}
use kg_os.Kernel.Refs.Component.{encode_ref_component, decode_ref_component}
use kg_os.Kernel.Refs.Encoding.{decode_ref_component-encode, decode_ref_component-utf8}

abbrev pub kind_text : ObjectKind → Bytes
kind_text domain = codes "domain"
kind_text node_definition = codes "node-definition"
kind_text relationship_definition = codes "relationship-definition"
kind_text knowledge_node = codes "knowledge-node"
kind_text knowledge_relationship = codes "knowledge-relationship"

kind_of : Bytes → Option ObjectKind
kind_of s =
    if bytes_eq s (kind_text domain)
    then some domain
    else if bytes_eq s (kind_text node_definition)
    then some node_definition
    else if bytes_eq s (kind_text relationship_definition)
    then some relationship_definition
    else if bytes_eq s (kind_text knowledge_node)
    then some knowledge_node
    else if bytes_eq s (kind_text knowledge_relationship)
    then some knowledge_relationship
    else none

-- The characters of a valid text that are below U+0020, or U+007F, are single bytes.
unfoldable pub has_control : Bytes → Bool
has_control [] = false
has_control (b ∷ s) = (ltb b 0x20 || b == 0x7F) || has_control s

-- The checks on the alias: its length, its characters, and that it is written canonically.
check_alias : ObjectKind → Bytes → Bytes → Result (ObjectKind × Bytes)
check_alias kind written alias =
    if bytes_eq alias [] || ltb 255 (length alias)
    then invalid
    else if has_control alias
    then invalid
    else if not (bytes_eq (encode_ref_component alias) written)
    then invalid
    else ok (kind, alias)

parse_alias : Option ObjectKind → Bytes → Result (ObjectKind × Bytes)
unfolding check_alias
parse_alias none written = invalid
parse_alias (some kind) written = elim (decode_ref_component written) [
  | none ↦ invalid
  | some alias ↦ check_alias kind written alias
]

parse_parts : Option (Bytes × Bytes) → Result (ObjectKind × Bytes)
unfolding kind_of parse_alias
parse_parts none = invalid
parse_parts (some (kind, written)) =
    if ltb (length kind) 1 then invalid else parse_alias (kind_of kind) written

unfoldable pub parse_new_object_target : Bytes → Result (ObjectKind × Bytes)
unfolding parse_parts
parse_new_object_target value =
    if has_prefix value (codes "new:")
    then parse_parts (split_byte b':' (cut value (codes "new:")))
    else invalid

only_ontology : ObjectKind × Bytes → Result (ObjectKind × Bytes)
only_ontology (kind, alias) = if is_ontology_kind kind then ok (kind, alias) else invalid

unfoldable pub parse_new_target : Bytes → Result (ObjectKind × Bytes)
unfolding parse_new_object_target only_ontology
parse_new_target value = parse_new_object_target value >>= only_ontology

-- The text of a target.
abbrev pub target_text : ObjectKind → Bytes → Bytes
target_text kind alias = codes "new:" ++ kind_text kind ++ b':' ∷ encode_ref_component alias

pub record IsAlias (alias : Bytes) : Type 0 where
  pub named : alias ≢ []
  pub short : length alias ≤ 255
  pub utf8 : utf8_valid alias ≡ true
  pub printable : has_control alias ≡ false

kind_of-kind_text : (kind : ObjectKind) → kind_of (kind_text kind) ≡ some kind
unfolding kind_of bytes_eq
kind_of-kind_text domain = refl
kind_of-kind_text node_definition = refl
kind_of-kind_text relationship_definition = refl
kind_of-kind_text knowledge_node = refl
kind_of-kind_text knowledge_relationship = refl

kind_of_sound : (s : Bytes) (kind : ObjectKind) → kind_of s ≡ some kind → s ≡ kind_text kind
unfolding kind_of
kind_of_sound s kind e = ground (
  arith,
  bytes_eq_iff s (kind_text domain),
  bytes_eq_iff s (kind_text node_definition),
  bytes_eq_iff s (kind_text relationship_definition),
  bytes_eq_iff s (kind_text knowledge_node),
  bytes_eq_iff s (kind_text knowledge_relationship),
)

check_alias_sound :
    (kind : ObjectKind) (written alias : Bytes) {r : ObjectKind × Bytes}
    → utf8_valid alias ≡ true
    → check_alias kind written alias ≡ ok r
    → (r ≡ (kind, alias)) × IsAlias alias × (encode_ref_component alias ≡ written)
unfolding check_alias
check_alias_sound kind written alias u e =
    ground (arith, bytes_eq_iff alias [], bytes_eq_iff (encode_ref_component alias) written)

check_alias_complete :
    (kind : ObjectKind) (alias : Bytes)
    → IsAlias alias
    → check_alias kind (encode_ref_component alias) alias ≡ ok (kind, alias)
unfolding check_alias
check_alias_complete kind alias v =
    ground (arith, bytes_eq_iff alias [], bytes_eq_refl (encode_ref_component alias))

parse_alias_sound :
    (found : Option ObjectKind) (written : Bytes) (kind : ObjectKind) (alias : Bytes)
    → parse_alias found written ≡ ok (kind, alias)
    → (found ≡ some kind) × IsAlias alias × (encode_ref_component alias ≡ written)
unfolding parse_alias
parse_alias_sound none written kind alias e = cc
parse_alias_sound (some k) written kind alias e =
    elim (Option-cases (decode_ref_component written)) [
      | inl missed ↦ cc (rw (missed, parse_alias) at e)
      | inr (a, found) ↦
          let (same, v, text) =
            check_alias_sound k written a (decode_ref_component-utf8 written found)
              (rw (found, parse_alias) at e) in
          (cc, subst IsAlias (cc) v, cc)
    ]

parse_new_object_target_sound :
    (value : Bytes) (kind : ObjectKind) (alias : Bytes)
    → parse_new_object_target value ≡ ok (kind, alias)
    → IsAlias alias × (value ≡ target_text kind alias)
unfolding parse_new_object_target
parse_new_object_target_sound value kind alias e =
    elim (Bool-cases (has_prefix value (codes "new:"))) [
      | inr other ↦ cc (rw other at e)
      | inl new ↦ elim (Option-cases (split_byte b':' (cut value (codes "new:")))) [
        | inl missed ↦ cc (rw (new, missed, parse_parts) at e)
        | inr ((k, written), found) ↦
            let parsed : parse_alias (kind_of k) written ≡ ok (kind, alias) =
              ground (arith, e, new, found) in
            let (known, v, text) = parse_alias_sound (kind_of k) written kind alias parsed in
            (
              v,
              sym (append-cut value (codes "new:") new)
                  ∙ ap (λ s. codes "new:" ++ s)
                      (append-split_byte b':' (cut value (codes "new:")) found
                        ∙ (λ i. kind_of_sound k kind known i ++ b':' ∷ sym text i)),
            )
      ]
    ]

kind_text-Lacks : (kind : ObjectKind) → Lacks b':' (kind_text kind)
kind_text-Lacks domain = ground arith
kind_text-Lacks node_definition = ground arith
kind_text-Lacks relationship_definition = ground arith
kind_text-Lacks knowledge_node = ground arith
kind_text-Lacks knowledge_relationship = ground arith

parse_parts-target :
    (kind : ObjectKind) (alias : Bytes)
    → IsAlias alias
    → parse_parts (some (kind_text kind, encode_ref_component alias)) ≡ ok (kind, alias)
unfolding parse_parts parse_alias
parse_parts-target kind alias v = ground (
  arith,
  kind_of-kind_text kind,
  decode_ref_component-encode alias v.utf8,
  check_alias_complete kind alias v,
)

parse_new_object_target-text :
    (kind : ObjectKind) (alias : Bytes)
    → IsAlias alias
    → parse_new_object_target (target_text kind alias) ≡ ok (kind, alias)
unfolding parse_new_object_target
parse_new_object_target-text kind alias v =
    rw
      (
        has_prefix-append (codes "new:") (kind_text kind ++ b':' ∷ encode_ref_component alias),
        cut-append (codes "new:") (kind_text kind ++ b':' ∷ encode_ref_component alias),
        split_byte-append b':' (kind_text kind) (encode_ref_component alias) (kind_text-Lacks kind),
      )
      (parse_parts-target kind alias v)

-- Parsing a target gives a kind and an alias exactly when the target is `new:`, the kind, `:` and
-- the alias in canonical form, and the alias is valid: not empty, at most 255 bytes, valid UTF-8
-- and free of control characters.
pub parse_new_object_target_iff :
    (value : Bytes) (kind : ObjectKind) (alias : Bytes)
    → (parse_new_object_target value ≡ ok (kind, alias))
      ↔ (IsAlias alias × (value ≡ target_text kind alias))
parse_new_object_target_iff value kind alias = (
  parse_new_object_target_sound value kind alias,
  λ (v, e). rw e (parse_new_object_target-text kind alias v),
)

-- The Ontology parser accepts exactly the targets above whose kind is one of the Ontology.
pub parse_new_target_iff :
    (value : Bytes) (kind : ObjectKind) (alias : Bytes)
    → (parse_new_target value ≡ ok (kind, alias))
      ↔ ((is_ontology_kind kind ≡ true) × IsAlias alias × (value ≡ target_text kind alias))
unfolding parse_new_target only_ontology
parse_new_target_iff value kind alias = (
  λ e.
      let ((k, a), parsed, kept) = >>=-eq-ok (parse_new_object_target value) only_ontology e in
      let parts : (is_ontology_kind k ≡ true) × (k ≡ kind) × (a ≡ alias) = ground (arith, kept) in
      let (v, text) = parse_new_object_target_sound value k a parsed in
      (
        subst (λ x. is_ontology_kind x ≡ true) parts.1 parts.0,
        subst IsAlias parts.2 v,
        text ∙ λ i. target_text (parts.1 i) (parts.2 i),
      ),
  λ (o, v, e). rw ((parse_new_object_target_iff value kind alias).1 (v, e), o),
)
