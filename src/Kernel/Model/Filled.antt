-- ===== src/Kernel/Model/Filled.antt =====
-- What the second loop of `normalizeDefinition` and `canonicalizeDefinitionMembers` leave.
use kg_os.Common.{
  Bytes, [], List, ◌∷◌, map, if◌then◌else◌, Option, none, some, bytes_eq, bytes_eq_iff, ok, ◌≡◌,
  refl, ap, subst, ◌∙◌, sym, All, All-append, >>=-eq-ok, each, each_by, to_upper,
}
use kg_os.Kernel.Model.{Constraint, Index, Property, is_nil, each_ok, map_ok}
use kg_os.Kernel.Model.Loops.{>>-eq-ok, each_ok-eq-ok, map_ok-All}
use kg_os.Kernel.Model.Members.{
  check_constraint, normalize_index, names_of, change_property, with_constraint, with_index,
  only_property, index_property, move_constraints, move_indexes, remaining, placed,
}
use kg_os.Kernel.Model.Definitions.{normalize_members, types_of}
use kg_os.Kernel.Model.Typed.{IsTyped}
use kg_os.Kernel.Model.Local.{
  normalize_index-fixed, only_property-some, AllNamed, has_text-named, local_constraint,
  local_index,
}

module _ (types : List (Bytes × Bytes)) (names : List Bytes) where
  -- A property whose own constraints and indexes pass their checks and are in their final form.
  pub record IsFilled (p : Property) : Type 0 where
    pub is_typed : IsTyped p
    pub constraints_hold : All (λ c. check_constraint names p.name c ≡ ok tt) p.constraints
    pub indexes_hold : All (λ i. normalize_index types names p.name i ≡ ok i) p.indexes

  pub normalize_members-IsFilled :
      (p q : Property) → IsTyped p → normalize_members types names p ≡ ok q → IsFilled q
  unfolding normalize_members
  normalize_members-IsFilled p q typed done =
      let (rules, rest) = >>-eq-ok (each_ok (check_constraint names p.name) p.constraints) _ done in
      let (indexes, found, same) =
        >>=-eq-ok (map_ok (normalize_index types names p.name) p.indexes) _ rest in
      let is : record p { indexes = indexes } ≡ q = cc same in
      subst IsFilled is (record {
        is_typed = record {
          has_name = typed.has_name;
          no_vector = typed.no_vector;
          has_earlier = typed.has_earlier;
        };
        constraints_hold = each_ok-eq-ok _ p.constraints rules;
        indexes_hold =
            map_ok-All (normalize_index types names p.name) (λ i. Unit {0}) _ p.indexes
              (λ i j _ e. normalize_index-fixed types names p.name i e) (All-tt p.indexes) found;
      })
    where
      All-tt : (xs : List Index) → All (λ i. Unit {0}) xs
      All-tt [] = tt
      All-tt (x ∷ xs) = (tt, All-tt xs)

  pub normalize_members-keeps :
      (p q : Property)
      → normalize_members types names p ≡ ok q
      → (q.name ≡ p.name) × (q.type_text ≡ p.type_text)
  unfolding normalize_members
  normalize_members-keeps p q done =
      let (rules, rest) = >>-eq-ok (each_ok (check_constraint names p.name) p.constraints) _ done in
      let (indexes, found, same) =
        >>=-eq-ok (map_ok (normalize_index types names p.name) p.indexes) _ rest in
      let is : record p { indexes = indexes } ≡ q = cc same in
      subst (λ q. (q.name ≡ p.name) × (q.type_text ≡ p.type_text)) is (refl, refl)

module _ (types : List (Bytes × Bytes)) (names : List Bytes) where
  module _ (P : Property → Type 0) where
    change_property-All :
        (f : Property → Property) (name : Bytes) (ps : List Property)
        → ((p : Property) → p.name ≡ name → P p → P (f p))
        → All P ps
        → All P (change_property f name ps)
    unfolding change_property
    change_property-All f name [] step h = tt
    change_property-All f name (p ∷ ps) step (h, hs) =
        each_by (All P) (bytes_eq p.name name)
          (λ same. (step p ((bytes_eq_iff p.name name).0 same) h, hs))
          (λ _. (h, change_property-All f name ps step hs))

  module _ {ℓ} {B : Type ℓ} (g : Property → B) where
    change_property-map :
        (f : Property → Property) (name : Bytes) (ps : List Property)
        → ((p : Property) → g (f p) ≡ g p)
        → map g (change_property f name ps) ≡ map g ps
    unfolding change_property
    change_property-map f name [] step = refl
    change_property-map f name (p ∷ ps) step =
        each (λ qs. map g qs ≡ map g (p ∷ ps)) (bytes_eq p.name name)
          (ap (λ x. x ∷ map g ps) (step p))
          (ap (λ xs. g p ∷ xs) (change_property-map f name ps step))

module _ (types : List (Bytes × Bytes)) (names : List Bytes) where
  -- A constraint of the Definition itself, which is of no single property.
  abbrev pub IsShared : Constraint → Type 0
  IsShared c = (check_constraint names [] c ≡ ok tt) × (only_property names c.properties ≡ none)

  abbrev pub IsSharedIndex : Index → Type 0
  IsSharedIndex i = (normalize_index types names [] i ≡ ok i) × (index_property names i ≡ none)

  -- Of properties with these names and types, with members that hold.
  pub record AreFilled (ps : List Property) : Type 0 where
    pub each_is : All (IsFilled types names) ps
    pub names_are : names_of ps ≡ names
    pub types_are : types_of ps ≡ types

  put_constraint-AreFilled :
      (c : Constraint) (name : Bytes) (ps : List Property)
      → AllNamed names
      → only_property names c.properties ≡ some name
      → check_constraint names [] c ≡ ok tt
      → AreFilled ps
      → AreFilled (change_property (with_constraint c) name ps)
  put_constraint-AreFilled c name ps named only h filled =
      let (is_one, known) = only_property-some names c.properties only in
      let local =
        local_constraint types names c name (has_text-named names name named known) is_one h in
      record {
        each_is =
            change_property-All types names (IsFilled types names) (with_constraint c) name ps
              (λ p same f. record {
                is_typed = record {
                  has_name = f.is_typed.has_name;
                  no_vector = f.is_typed.no_vector;
                  has_earlier = f.is_typed.has_earlier;
                };
                constraints_hold = All-append _ p.constraints _ f.constraints_hold (
                  subst (λ n. check_constraint names n (record c { properties = [] }) ≡ ok tt)
                      (sym same) local,
                  tt,
                );
                indexes_hold = f.indexes_hold;
              })
              filled.each_is;
        names_are =
            change_property-map types names (λ p. p.name) (with_constraint c) name ps (λ p. refl)
            ∙ filled.names_are;
        types_are =
            change_property-map types names (λ p. (p.name, to_upper p.type_text))
              (with_constraint c) name ps (λ p. refl)
            ∙ filled.types_are;
      }

  index_property-some :
      (i : Index) {name : Bytes}
      → index_property names i ≡ some name
      → (i.targets ≡ []) × (only_property names i.properties ≡ some name)
  unfolding index_property
  index_property-some i {name} e = none_at i.targets e
    where
      none_at :
          (ts : List Bytes)
          → (if is_nil ts then only_property names i.properties else none) ≡ some name
          → (ts ≡ []) × (only_property names i.properties ≡ some name)
      none_at [] e = (refl, e)
      none_at (t ∷ ts) e = cc

  put_index-AreFilled :
      (i : Index) (name : Bytes) (ps : List Property)
      → AllNamed names
      → index_property names i ≡ some name
      → normalize_index types names [] i ≡ ok i
      → AreFilled ps
      → AreFilled (change_property (with_index i) name ps)
  put_index-AreFilled i name ps named only h filled =
      let (no_targets, found) = index_property-some i only in
      let (is_one, known) = only_property-some names i.properties found in
      let local =
        local_index types names i name (has_text-named names name named known) is_one no_targets
          h in
      record {
        each_is =
            change_property-All types names (IsFilled types names) (with_index i) name ps
              (λ p same f. record {
                is_typed = record {
                  has_name = f.is_typed.has_name;
                  no_vector = f.is_typed.no_vector;
                  has_earlier = f.is_typed.has_earlier;
                };
                constraints_hold = f.constraints_hold;
                indexes_hold = All-append _ p.indexes _ f.indexes_hold (
                  subst
                      (λ n.
                        normalize_index types names n (record i { properties = [] })
                        ≡ ok (record i { properties = [] }))
                      (sym same) local,
                  tt,
                );
              })
              filled.each_is;
        names_are =
            change_property-map types names (λ p. p.name) (with_index i) name ps (λ p. refl)
            ∙ filled.names_are;
        types_are =
            change_property-map types names (λ p. (p.name, to_upper p.type_text)) (with_index i)
              name ps (λ p. refl)
            ∙ filled.types_are;
      }

  All-remaining :
      {A : Type 0} (P : A → Type 0) (x : A) (found : Option Bytes) (xs : List A)
      → (found ≡ none → P x)
      → All P xs
      → All P (remaining x found xs)
  All-remaining P x none xs h hs = (h refl, hs)
  All-remaining P x (some name) xs h hs = hs

  placed-AreFilled :
      (f : Property → Property) (found : Option Bytes) (ps : List Property)
      → ((name : Bytes) → found ≡ some name → AreFilled (change_property f name ps))
      → AreFilled ps
      → AreFilled (placed f found ps)
  placed-AreFilled f none ps step filled = filled
  placed-AreFilled f (some name) ps step filled = step name refl

  pub move_constraints-AreFilled :
      (cs : List Constraint) (ps : List Property)
      → AllNamed names
      → All (λ c. check_constraint names [] c ≡ ok tt) cs
      → AreFilled ps
      → All IsShared (move_constraints cs ps).0 × AreFilled (move_constraints cs ps).1
  unfolding move_constraints
  move_constraints-AreFilled [] ps named h filled = (tt, filled)
  move_constraints-AreFilled (c ∷ cs) ps named (h, hs) filled =
      let found = only_property (names_of ps) c.properties in
      let step =
        placed-AreFilled (with_constraint c) found ps
          (λ name own.
            put_constraint-AreFilled c name ps named (rw filled.names_are at own) h filled)
          filled in
      let (kept, later) =
        move_constraints-AreFilled cs (placed (with_constraint c) found ps) named hs step in
      (All-remaining IsShared c found _ (λ shared. (h, rw filled.names_are at shared)) kept, later)

  pub move_indexes-AreFilled :
      (is : List Index) (ps : List Property)
      → AllNamed names
      → All (λ i. normalize_index types names [] i ≡ ok i) is
      → AreFilled ps
      → All IsSharedIndex (move_indexes is ps).0 × AreFilled (move_indexes is ps).1
  unfolding move_indexes
  move_indexes-AreFilled [] ps named h filled = (tt, filled)
  move_indexes-AreFilled (i ∷ is) ps named (h, hs) filled =
      let found = index_property (names_of ps) i in
      let step =
        placed-AreFilled (with_index i) found ps
          (λ name own. put_index-AreFilled i name ps named (rw filled.names_are at own) h filled)
          filled in
      let (kept, later) =
        move_indexes-AreFilled is (placed (with_index i) found ps) named hs step in
      (
        All-remaining IsSharedIndex i found _ (λ shared. (h, rw filled.names_are at shared)) kept,
        later,
      )
