-- ===== src/Kernel/Model/Ready.antt =====
-- What the members of a Definition are before they are put in order.
use kg_os.Common.{
  Bytes, [], List, ◌∷◌, not, ◌||◌, ok, ◌≡◌, refl, subst, ◌∙◌, arith, All, >>=-eq-ok, is_distinct,
  to_upper,
}
use kg_os.Kernel.Model.{Index, Definition, each_ok, map_ok}
use kg_os.Kernel.Model.Loops.{>>-eq-ok, refuse-eq-ok, each_ok-eq-ok, map_ok-All, map_ok-map}
use kg_os.Kernel.Model.Members.{
  check_constraint, normalize_index, validate_resource_names, validate_constraint_duplicates,
  constraint_names, index_names, coverages, canonicalize_definition_members,
}
use kg_os.Kernel.Model.Definitions.{order_members, normalize_rest, ordered, order_definition}
use kg_os.Kernel.Model.Local.{normalize_index-fixed, AllNamed}
use kg_os.Kernel.Model.Filled.{
  IsFilled, IsShared, IsSharedIndex, AreFilled, move_constraints-AreFilled, move_indexes-AreFilled,
}
use kg_os.Kernel.Model.Canonical.{
  IsCanonicalProperty, order_members-IsCanonicalProperty, order_members-keeps, IsReady,
}

-- The parts of a Definition that its members do not change.
pub record SameHead (d e : Definition) : Type 0 where
  pub kind_is : e.kind ≡ d.kind
  pub name_is : e.name ≡ d.name
  pub labels_are : e.labels ≡ d.labels
  pub ends_are : (e.from ≡ d.from) × (e.to ≡ d.to)
  pub title_is : e.title ≡ d.title
  pub description_is : e.description ≡ d.description

module _ (types : List (Bytes × Bytes)) (names : List Bytes) where
  pub record IsRest (d e : Definition) : Type 0 where
    pub same_head : SameHead d e
    pub constraints_hold : All (IsShared types names) e.constraints
    pub indexes_hold : All (IsSharedIndex types names) e.indexes
    pub properties_hold : AreFilled types names e.properties

  pub normalize_rest-IsRest :
      (d : Definition) {e : Definition}
      → AllNamed names
      → AreFilled types names d.properties
      → normalize_rest types names d ≡ ok e
      → IsRest d e
  unfolding normalize_rest canonicalize_definition_members
  normalize_rest-IsRest d {e} named filled done =
      let (rules, rest) = >>-eq-ok (each_ok (check_constraint names []) d.constraints) _ done in
      let (indexes, found, same) =
        >>=-eq-ok (map_ok (normalize_index types names []) d.indexes) _ rest in
      let is : canonicalize_definition_members (record d { indexes = indexes }) ≡ e = cc same in
      let (kept, later) =
        move_constraints-AreFilled types names d.constraints d.properties named
          (each_ok-eq-ok _ d.constraints rules) filled in
      let fixed =
        map_ok-All (normalize_index types names []) (λ i. Unit {0})
          (λ i. normalize_index types names [] i ≡ ok i) d.indexes
          (λ i j _ e. normalize_index-fixed types names [] i e) (All-tt d.indexes) found in
      let (shared, last) = move_indexes-AreFilled types names indexes _ named fixed later in
      subst (IsRest d) is (record {
        same_head = record {
          kind_is = refl;
          name_is = refl;
          labels_are = refl;
          ends_are = (refl, refl);
          title_is = refl;
          description_is = refl;
        };
        constraints_hold = kept;
        indexes_hold = shared;
        properties_hold = last;
      })
    where
      All-tt : (xs : List Index) → All (λ i. Unit {0}) xs
      All-tt [] = tt
      All-tt (x ∷ xs) = (tt, All-tt xs)

  pub order_definition-IsReady :
      (d : Definition) {e : Definition}
      → All (IsShared types names) d.constraints
      → All (IsSharedIndex types names) d.indexes
      → AreFilled types names d.properties
      → order_definition d ≡ ok e
      → (r : Definition) × SameHead d r × IsReady types names r × (ordered r ≡ e)
  unfolding order_definition validate_resource_names validate_constraint_duplicates
  order_definition-IsReady d {e} rules shared filled done =
      let (properties, found, rest) = >>=-eq-ok (map_ok order_members d.properties) _ done in
      let r : Definition = record d { properties = properties } in
      let (distinct, more) = >>-eq-ok (validate_resource_names r) _ rest in
      let (single, same) = >>-eq-ok (validate_constraint_duplicates r) _ more in
      let fine =
        refuse-eq-ok (not (is_distinct (constraint_names r)) || not (is_distinct (index_names r)))
          distinct in
      let once = refuse-eq-ok (not (is_distinct (coverages r))) single in
      (
        r,
        record {
          kind_is = refl;
          name_is = refl;
          labels_are = refl;
          ends_are = (refl, refl);
          title_is = refl;
          description_is = refl;
        },
        record {
          properties_hold =
              map_ok-All order_members (IsFilled types names) (IsCanonicalProperty types names)
                d.properties (λ p q f e. order_members-IsCanonicalProperty types names p q f e)
                filled.each_is found;
          names_are =
              map_ok-map order_members (λ p. p.name) (λ p. p.name) d.properties
                (λ p q e. (order_members-keeps types names p q e).0) found
              ∙ filled.names_are;
          types_are =
              map_ok-map order_members (λ p. (p.name, to_upper p.type_text))
                (λ p. (p.name, to_upper p.type_text)) d.properties
                (λ p q e.
                  let (name, type) = order_members-keeps types names p q e in rw (name, type) refl)
                found
              ∙ filled.types_are;
          constraints_hold = rules;
          indexes_hold = shared;
          no_double_constraint = ground arith;
          no_double_index = ground arith;
          no_double_rule = ground arith;
        },
        cc same,
      )
