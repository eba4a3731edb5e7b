-- ===== src/Kernel/Model/Canonical.antt =====
-- What `normalizeDefinition` returns is in canonical form.
use kg_os.Common.{
  Bytes, codes, [], List, map, true, false, not, ◌&&◌, ◌||◌, ok, ◌≡◌, refl, ap, subst, ◌∙◌, sym,
  arith, All, >>=-eq-ok, is_distinct, Permᴰ, sort_by, sort_by-Perm, sort_by-IsOrdered, All-sort_by,
  IsOrdered, bytes_eq,
}
use mathlib.Core.List.Permᴰ.{nil, cons, swap, trans}
use kg_os.Kernel.Refs.{
  ObjectKind, domain, node_definition, relationship_definition, knowledge_node,
  knowledge_relationship,
}
use kg_os.Kernel.Model.{
  Constraint, Index, Property, Definition, refuse, is_nil, each_ok, validate_public_name,
  normalize_set, check_endpoint,
}
use kg_os.Kernel.Model.Loops.{>>-eq-ok, refuse-eq-ok, All-map}
use kg_os.Kernel.Model.Domains.{normalize_set-IsSortedSet, normalize_set-canonical}
use kg_os.Kernel.Model.Members.{
  names_of, constraint_sort_key, has_unique, reject_boolean_constraint_duplicates, constraint_names,
  index_names, coverages,
}
use kg_os.Kernel.Model.Definitions.{
  is_given, check_label, normalize_ends, types_of, order_members, is_definition,
}
use kg_os.Kernel.Model.Filled.{IsFilled, IsShared, IsSharedIndex}
use kg_os.Kernel.Model.Resources.{
  check_constraint-Perm, normalize_index-Perm, only_property-Perm, index_property-Perm,
}

abbrev pub ConstraintOrder : List Constraint → Type 0
ConstraintOrder = IsOrdered constraint_sort_key

abbrev pub IndexOrder : List Index → Type 0
IndexOrder = IsOrdered (λ i. i.name)

-- A property among those of these names and types.
pub record IsCanonicalProperty (types : List (Bytes × Bytes)) (names : List Bytes) (p : Property)
    : Type 0 where
  pub is_filled : IsFilled types names p
  pub one_unique : p.unique && has_unique p.constraints ≡ false
  pub constraints_ordered : ConstraintOrder p.constraints
  pub indexes_ordered : IndexOrder p.indexes

pub record IsCanonical (d : Definition) : Type 0 where
  pub has_kind : is_definition d.kind ≡ true
  pub has_name : validate_public_name d.name ≡ ok tt
  pub has_ends : normalize_ends d d.kind ≡ ok d.labels
  pub has_properties : is_nil d.properties ≡ false
  pub no_double_property : is_distinct (names_of d.properties) ≡ true
  pub properties_hold :
      All (IsCanonicalProperty (types_of d.properties) (names_of d.properties)) d.properties
  pub constraints_hold :
      All (IsShared (types_of d.properties) (names_of d.properties)) d.constraints
  pub indexes_hold : All (IsSharedIndex (types_of d.properties) (names_of d.properties)) d.indexes
  pub no_double_constraint : is_distinct (constraint_names d) ≡ true
  pub no_double_index : is_distinct (index_names d) ≡ true
  pub no_double_rule : is_distinct (coverages d) ≡ true
  pub properties_ordered : IsOrdered (λ p. p.name) d.properties
  pub constraints_ordered : ConstraintOrder d.constraints
  pub indexes_ordered : IndexOrder d.indexes

pub normalize_ends-fixed :
    (d : Definition) (kind : ObjectKind) (e : Definition)
    → (e.from ≡ d.from) × (e.to ≡ d.to) × (e.name ≡ d.name)
    → normalize_ends d kind ≡ ok e.labels
    → normalize_ends e kind ≡ ok e.labels
unfolding normalize_ends
normalize_ends-fixed d domain e same done = cc
normalize_ends-fixed d knowledge_node e same done = cc
normalize_ends-fixed d knowledge_relationship e same done = cc
normalize_ends-fixed d node_definition e (from, to, name) done =
    let (no_ends, rest) = >>-eq-ok (refuse (is_given d.from || is_given d.to)) _ done in
    let (labels, set, more) = >>=-eq-ok (normalize_set d.labels) _ rest in
    let (checked, same) = >>-eq-ok (each_ok (check_label d.name) labels) _ more in
    let is : labels ≡ e.labels = cc same in
    let set_of = normalize_set-IsSortedSet d.labels set in
    let again : normalize_set e.labels ≡ ok e.labels =
      subst (λ l. normalize_set l ≡ ok l) is
        (normalize_set-canonical labels set_of.is_ordered set_of.has_no_double) in
    let fine : each_ok (check_label d.name) e.labels ≡ ok tt =
      subst (λ l. each_ok (check_label d.name) l ≡ ok tt) is checked in
    rw (from, to, name, no_ends, again, fine) refl
normalize_ends-fixed d relationship_definition e (from, to, name) done =
    let (bare, rest) = >>-eq-ok (refuse (not (is_nil d.labels))) _ done in
    let (start, more) = >>-eq-ok (check_endpoint d.from) _ rest in
    let (end, same) = >>-eq-ok (check_endpoint d.to) _ more in
    let is : d.labels ≡ e.labels = cc same in rw (from, to, sym is, bare, start, end) refl

has_unique-Perm : {cs ds : List Constraint} → Permᴰ cs ds → has_unique cs ≡ has_unique ds
unfolding has_unique
has_unique-Perm nil = refl
has_unique-Perm (cons {b = c} e d) =
    rw e (ap (λ b. bytes_eq c.type_name (codes "unique") || b) (has_unique-Perm d))
has_unique-Perm (swap {a' = a} {b' = b} e f) = rw (e, f) (ground arith)
has_unique-Perm (trans d f) = has_unique-Perm d ∙ has_unique-Perm f

module _ (types : List (Bytes × Bytes)) (names : List Bytes) where
  pub order_members-IsCanonicalProperty :
      (p q : Property)
      → IsFilled types names p
      → order_members p ≡ ok q
      → IsCanonicalProperty types names q
  unfolding order_members reject_boolean_constraint_duplicates
  order_members-IsCanonicalProperty p q f done =
      let (single, same) = >>-eq-ok (refuse (p.unique && has_unique p.constraints)) _ done in
      let is : record p {
        constraints = sort_by constraint_sort_key p.constraints;
        indexes = sort_by (λ i. i.name) p.indexes;
      }
          ≡ q =
        cc same in
      subst (IsCanonicalProperty types names) is (record {
        is_filled = record {
          is_typed = record {
            has_name = f.is_typed.has_name;
            no_vector = f.is_typed.no_vector;
            has_earlier = f.is_typed.has_earlier;
          };
          constraints_hold = All-sort_by constraint_sort_key _ p.constraints f.constraints_hold;
          indexes_hold = All-sort_by (λ i. i.name) _ p.indexes f.indexes_hold;
        };
        one_unique =
            sym (
              ap (λ b. p.unique && b)
                (has_unique-Perm (sort_by-Perm constraint_sort_key p.constraints)))
            ∙ refuse-eq-ok _ single;
        constraints_ordered = sort_by-IsOrdered constraint_sort_key p.constraints;
        indexes_ordered = sort_by-IsOrdered (λ i. i.name) p.indexes;
      })

  pub order_members-keeps :
      (p q : Property) → order_members p ≡ ok q → (q.name ≡ p.name) × (q.type_text ≡ p.type_text)
  unfolding order_members
  order_members-keeps p q done =
      let (single, same) = >>-eq-ok (reject_boolean_constraint_duplicates p) _ done in
      let is : record p {
        constraints = sort_by constraint_sort_key p.constraints;
        indexes = sort_by (λ i. i.name) p.indexes;
      }
          ≡ q =
        cc same in
      subst (λ q. (q.name ≡ p.name) × (q.type_text ≡ p.type_text)) is (refl, refl)

  -- The Definition before its members are put in order; `names` and `types` are of its properties.
  pub record IsReady (d : Definition) : Type 0 where
    pub properties_hold : All (IsCanonicalProperty types names) d.properties
    pub names_are : names_of d.properties ≡ names
    pub types_are : types_of d.properties ≡ types
    pub constraints_hold : All (IsShared types names) d.constraints
    pub indexes_hold : All (IsSharedIndex types names) d.indexes
    pub no_double_constraint : is_distinct (constraint_names d) ≡ true
    pub no_double_index : is_distinct (index_names d) ≡ true
    pub no_double_rule : is_distinct (coverages d) ≡ true

  module _ {names' : List Bytes} {types' : List (Bytes × Bytes)} (p : Permᴰ names names')
      (q : Permᴰ types types') (d : is_distinct (map (λ e. e.0) types) ≡ true) where
    pub moved_property :
        (r : Property) → IsCanonicalProperty types names r → IsCanonicalProperty types' names' r
    moved_property r c = record {
      is_filled = record {
        is_typed = c.is_filled.is_typed;
        constraints_hold =
            All-map _ _ r.constraints (λ x h. sym (check_constraint-Perm p r.name x) ∙ h)
              c.is_filled.constraints_hold;
        indexes_hold =
            All-map _ _ r.indexes (λ x h. sym (normalize_index-Perm p q d r.name x) ∙ h)
              c.is_filled.indexes_hold;
      };
      one_unique = c.one_unique;
      constraints_ordered = c.constraints_ordered;
      indexes_ordered = c.indexes_ordered;
    }

    pub moved_constraint : (c : Constraint) → IsShared types names c → IsShared types' names' c
    moved_constraint c (h, k) =
        (sym (check_constraint-Perm p [] c) ∙ h, sym (only_property-Perm p c.properties) ∙ k)

    pub moved_index : (i : Index) → IsSharedIndex types names i → IsSharedIndex types' names' i
    moved_index i (h, k) =
        (sym (normalize_index-Perm p q d [] i) ∙ h, sym (index_property-Perm p q d i) ∙ k)
