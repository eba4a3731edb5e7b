-- ===== src/Kernel/Maintenance/RefSets.antt =====
-- `sameOntologyRefSet` compares what two lists hold, in any order.
use kg_os.Common.{
  Bytes, [], List, ◌∷◌, map, true, ◌==◌, bytes_eq, bytes_eq_iff, bytes_eq_refl, length, suc, ◌≡◌,
  refl, ap, ap₂, ◌∙◌, sym, subst, ◌↔◌, arith, All, &&_split, ==_iff, Permᴰ, sort_by, insert_by,
  sort_texts, sort_texts-Perm, sort_by-Perm, All-sort_by,
}
use mathlib.Core.List.Permᴰ
use kg_os.Kernel.Refs.{
  ObjectKind, domain, node_definition, relationship_definition, knowledge_node,
  knowledge_relationship, OntologyRef, ontology_string,
}
use kg_os.Kernel.Refs.Ontology.{IsOntologyRef, parse_ontology_ref_iff}
use kg_os.Kernel.Maintenance.{kind_eq, ref_eq, all_eq, same_ontology_ref_set}

kind_eq_sound : (a b : ObjectKind) → kind_eq a b ≡ true → a ≡ b
unfolding kind_eq
kind_eq_sound domain domain h = refl
kind_eq_sound domain node_definition h = cc
kind_eq_sound domain relationship_definition h = cc
kind_eq_sound domain knowledge_node h = cc
kind_eq_sound domain knowledge_relationship h = cc
kind_eq_sound node_definition domain h = cc
kind_eq_sound node_definition node_definition h = refl
kind_eq_sound node_definition relationship_definition h = cc
kind_eq_sound node_definition knowledge_node h = cc
kind_eq_sound node_definition knowledge_relationship h = cc
kind_eq_sound relationship_definition domain h = cc
kind_eq_sound relationship_definition node_definition h = cc
kind_eq_sound relationship_definition relationship_definition h = refl
kind_eq_sound relationship_definition knowledge_node h = cc
kind_eq_sound relationship_definition knowledge_relationship h = cc
kind_eq_sound knowledge_node domain h = cc
kind_eq_sound knowledge_node node_definition h = cc
kind_eq_sound knowledge_node relationship_definition h = cc
kind_eq_sound knowledge_node knowledge_node h = refl
kind_eq_sound knowledge_node knowledge_relationship h = cc
kind_eq_sound knowledge_relationship domain h = cc
kind_eq_sound knowledge_relationship node_definition h = cc
kind_eq_sound knowledge_relationship relationship_definition h = cc
kind_eq_sound knowledge_relationship knowledge_node h = cc
kind_eq_sound knowledge_relationship knowledge_relationship h = refl

kind_eq_refl : (a : ObjectKind) → kind_eq a a ≡ true
unfolding kind_eq
kind_eq_refl domain = refl
kind_eq_refl node_definition = refl
kind_eq_refl relationship_definition = refl
kind_eq_refl knowledge_node = refl
kind_eq_refl knowledge_relationship = refl

pub ref_eq_sound : (a b : OntologyRef) → ref_eq a b ≡ true → a ≡ b
unfolding ref_eq
ref_eq_sound a b h =
    let (kinds, names) = &&_split (kind_eq a.kind b.kind) (bytes_eq a.name b.name) h in
    ap₂ (λ k n. record { kind = k; name = n }) (kind_eq_sound a.kind b.kind kinds)
      ((bytes_eq_iff a.name b.name).0 names)

pub ref_eq_refl : (a : OntologyRef) → ref_eq a a ≡ true
unfolding ref_eq
ref_eq_refl a = rw (kind_eq_refl a.kind, bytes_eq_refl a.name) refl

-- Sorting by a key sorts the keys.
map-insert_by :
    (key : OntologyRef → Bytes) (a : OntologyRef) (bs : List OntologyRef)
    → map key (insert_by key a bs) ≡ insert_by (λ s. s) (key a) (map key bs)
unfolding insert_by
map-insert_by key a [] = refl
map-insert_by key a (b ∷ bs) = ground (arith, map-insert_by key a bs)

map-sort_by :
    (key : OntologyRef → Bytes) (xs : List OntologyRef)
    → map key (sort_by key xs) ≡ sort_texts (map key xs)
unfolding sort_by
map-sort_by key [] = refl
map-sort_by key (a ∷ xs) =
    map-insert_by key a (sort_by key xs) ∙ ap (insert_by (λ s. s) (key a)) (map-sort_by key xs)

ontology_string_injective :
    (a b : OntologyRef)
    → IsOntologyRef a
    → IsOntologyRef b
    → ontology_string a ≡ ontology_string b
    → a ≡ b
ontology_string_injective a b h k same =
    let first = (parse_ontology_ref_iff (ontology_string a) a).1 (h, refl) in
    let second = (parse_ontology_ref_iff (ontology_string a) b).1 (k, sym same) in
    cc (first, second)

map_injective :
    (xs ys : List OntologyRef)
    → All IsOntologyRef xs
    → All IsOntologyRef ys
    → map ontology_string xs ≡ map ontology_string ys
    → all_eq xs ys ≡ true
unfolding all_eq
map_injective [] ys h k same = refl
map_injective (a ∷ xs) [] h k same = refl
map_injective (a ∷ xs) (b ∷ ys) (h, hs) (k, ks) same =
    let first : ontology_string a ≡ ontology_string b = cc same in
    let rest : map ontology_string xs ≡ map ontology_string ys = cc same in
    let is : a ≡ b = ontology_string_injective a b h k first in
    rw (is, ref_eq_refl b) (map_injective xs ys hs ks rest)

all_eq_sound : (xs ys : List OntologyRef) → length xs ≡ length ys → all_eq xs ys ≡ true → xs ≡ ys
unfolding all_eq
all_eq_sound [] [] l h = refl
all_eq_sound [] (b ∷ ys) l h = ground arith
all_eq_sound (a ∷ xs) [] l h = ground arith
all_eq_sound (a ∷ xs) (b ∷ ys) l h =
    let (first, rest) = &&_split (ref_eq a b) (all_eq xs ys) h in
    ap₂ (λ x xs. x ∷ xs) (ref_eq_sound a b first) (all_eq_sound xs ys (omega (arith, l)) rest)

length-Perm : {xs ys : List OntologyRef} → Permᴰ xs ys → length xs ≡ length ys
length-Perm Permᴰ.nil = refl
length-Perm (Permᴰ.cons e d) = ap suc (length-Perm d)
length-Perm (Permᴰ.swap e f) = refl
length-Perm (Permᴰ.trans d f) = length-Perm d ∙ length-Perm f

-- For Ontology Refs, `sameOntologyRefSet` is that one list is a permutation of the other.
pub same_ontology_ref_set_iff :
    (left right : List OntologyRef)
    → All IsOntologyRef left
    → All IsOntologyRef right
    → (same_ontology_ref_set left right ≡ true) ↔ Permᴰ left right
unfolding same_ontology_ref_set
same_ontology_ref_set_iff left right h k = (
  (λ same.
      let (lengths, equal) = &&_split (length left == length right) _ same in
      let l = sort_by-Perm ontology_string left in
      let r = sort_by-Perm ontology_string right in
      let long =
        sym (length-Perm l) ∙ ((==_iff (length left) (length right)).0 lengths ∙ length-Perm r) in
      let is = all_eq_sound _ _ long equal in
      Permᴰ.trans (subst (λ xs. Permᴰ left xs) is l) (Permᴰ.symm r)),
  (λ p.
      let keys =
        map-sort_by ontology_string left
        ∙ (sort_texts-Perm (Permᴰ.map ontology_string p)
            ∙ sym (map-sort_by ontology_string right)) in
      let equal =
        map_injective (sort_by ontology_string left) (sort_by ontology_string right)
          (All-sort_by ontology_string IsOntologyRef left h)
          (All-sort_by ontology_string IsOntologyRef right k) keys in
      rw (length-Perm p, equal) (ground (arith, ==_iff (length right) (length right)))),
)
