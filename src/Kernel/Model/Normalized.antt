-- ===== src/Kernel/Model/Normalized.antt =====
-- `normalizeDefinition` from its checks to its canonical form.
use kg_os.Common.{
  Bytes, [], List, ◌∷◌, map, Bool, true, false, not, ◌||◌, ok, guard, guard-eq-ok, ltb, length, ◌≡◌,
  refl, ap, subst, ◌∙◌, sym, All, >>=-eq-ok, is_distinct, is_distinct-Perm, Permᴰ, sort_by-Perm,
  sort_by-IsOrdered, All-sort_by, to_upper,
}
use mathlib.Core.List.Permᴰ
use kg_os.Kernel.Errors.{ErrorCode}
use kg_os.Kernel.Model.{Property, Definition, refuse, is_nil, map_ok, validate_public_name}
use kg_os.Kernel.Model.Loops.{>>-eq-ok, refuse-eq-ok, map_ok-All, map_ok-map, All-map}
use kg_os.Kernel.Model.Members.{names_of, constraint_sort_key}
use kg_os.Kernel.Model.Definitions.{
  normalize_ends, normalize_properties, types_of, normalize_members, normalize_rest,
  normalize_typed, ordered, is_definition, normalize_definition,
}
use kg_os.Kernel.Model.Typed.{IsTyped, IsScanned, normalize_properties-IsScanned}
use kg_os.Kernel.Model.Local.{AllNamed}
use kg_os.Kernel.Model.Filled.{
  IsFilled, normalize_members-IsFilled, normalize_members-keeps, AreFilled,
}
use kg_os.Kernel.Model.Resources.{
  is_nil-Perm, constraint_names-ordered, index_names-ordered, coverages-ordered,
}
use kg_os.Kernel.Model.Canonical.{
  IsCanonical, normalize_ends-fixed, IsReady, moved_property, moved_constraint, moved_index,
}
use kg_os.Kernel.Model.Ready.{SameHead, normalize_rest-IsRest, order_definition-IsReady}

keys_of : (ps : List Property) → map (λ e. e.0) (types_of ps) ≡ names_of ps
keys_of [] = refl
keys_of (p ∷ ps) = ap (λ xs. p.name ∷ xs) (keys_of ps)

named_of : (ps : List Property) → All IsTyped ps → AllNamed (names_of ps)
unfolding validate_public_name
named_of [] h = tt
named_of (p ∷ ps) (h, hs) =
    let (short, rest) = >>-eq-ok (refuse (is_nil p.name || ltb 255 (length p.name))) _ h.has_name in
    (first_of _ _ (refuse-eq-ok _ short), named_of ps hs)
  where
    first_of : (a b : Bool) → a || b ≡ false → a ≡ false
    first_of false b e = refl
    first_of true b e = cc

nil_names : (ps : List Property) → is_nil (names_of ps) ≡ is_nil ps
nil_names [] = refl
nil_names (p ∷ ps) = refl

-- What makes the Definition that is put in order canonical.
ordered-IsCanonical :
    (types : List (Bytes × Bytes)) (names : List Bytes) (d : Definition)
    → is_definition d.kind ≡ true
    → validate_public_name d.name ≡ ok tt
    → normalize_ends d d.kind ≡ ok d.labels
    → is_nil names ≡ false
    → is_distinct names ≡ true
    → is_distinct (map (λ e. e.0) types) ≡ true
    → IsReady types names d
    → IsCanonical (ordered d)
ordered-IsCanonical types names d kind name ends some_name once keys r =
    let by = sort_by-Perm (λ p. p.name) d.properties in
    let p : Permᴰ names (names_of (ordered d).properties) =
      subst (λ n. Permᴰ n (names_of (ordered d).properties)) r.names_are
        (Permᴰ.map (λ p. p.name) by) in
    let q : Permᴰ types (types_of (ordered d).properties) =
      subst (λ t. Permᴰ t (types_of (ordered d).properties)) r.types_are
        (Permᴰ.map (λ p. (p.name, to_upper p.type_text)) by) in
    record {
      has_kind = kind;
      has_name = name;
      has_ends = normalize_ends-fixed d d.kind (ordered d) (refl, refl, refl) ends;
      has_properties = sym (nil_names (ordered d).properties) ∙ sym (is_nil-Perm p) ∙ some_name;
      no_double_property = sym (is_distinct-Perm p) ∙ once;
      properties_hold =
          All-sort_by (λ p. p.name) _ d.properties
            (All-map _ _ d.properties (moved_property types names p q keys) r.properties_hold);
      constraints_hold =
          All-sort_by constraint_sort_key _ d.constraints
            (All-map _ _ d.constraints (moved_constraint types names p q keys) r.constraints_hold);
      indexes_hold =
          All-sort_by (λ i. i.name) _ d.indexes
            (All-map _ _ d.indexes (moved_index types names p q keys) r.indexes_hold);
      no_double_constraint =
          sym (is_distinct-Perm (constraint_names-ordered d)) ∙ r.no_double_constraint;
      no_double_index = sym (is_distinct-Perm (index_names-ordered d)) ∙ r.no_double_index;
      no_double_rule = sym (is_distinct-Perm (coverages-ordered d)) ∙ r.no_double_rule;
      properties_ordered = sort_by-IsOrdered (λ p. p.name) d.properties;
      constraints_ordered = sort_by-IsOrdered constraint_sort_key d.constraints;
      indexes_ordered = sort_by-IsOrdered (λ i. i.name) d.indexes;
    }

-- The canonical form of a Definition: of the same kind, name, title, description and ends, with
-- properties of the same names.
pub record IsNormalized (given result : Definition) : Type 0 where
  pub kind_is : result.kind ≡ given.kind
  pub name_is : result.name ≡ given.name
  pub title_is : result.title ≡ given.title
  pub description_is : result.description ≡ given.description
  pub ends_are : (result.from ≡ given.from) × (result.to ≡ given.to)
  pub names_are : Permᴰ (names_of given.properties) (names_of result.properties)
  pub is_canonical : IsCanonical result

finished-IsNormalized :
    (d : Definition) (labels : List Bytes) (typed properties : List Property) (r s : Definition)
    {e : Definition}
    → is_definition d.kind ≡ true
    → validate_public_name d.name ≡ ok tt
    → is_nil d.properties ≡ false
    → normalize_ends d d.kind ≡ ok labels
    → IsScanned [] d.properties typed
    → SameHead (record d { labels = labels; properties = properties }) r
    → SameHead r s
    → IsReady (types_of typed) (names_of typed) s
    → ordered s ≡ e
    → IsNormalized d e
finished-IsNormalized d labels typed properties r s kind name some_property ends scanned f g ready
      is =
    let kind_is = g.kind_is ∙ f.kind_is in
    let name_is = g.name_is ∙ f.name_is in
    let labels_are = g.labels_are ∙ f.labels_are in
    let from_is = g.ends_are.0 ∙ f.ends_are.0 in
    let to_is = g.ends_are.1 ∙ f.ends_are.1 in
    let some_name =
      sym (ap is_nil (sym scanned.names_are)) ∙ (nil_names d.properties ∙ some_property) in
    let ends_again =
      normalize_ends-fixed d d.kind s (from_is, to_is, name_is) (rw labels_are ends) in
    subst (IsNormalized d) is (record {
      kind_is = kind_is;
      name_is = name_is;
      title_is = g.title_is ∙ f.title_is;
      description_is = g.description_is ∙ f.description_is;
      ends_are = (from_is, to_is);
      names_are =
          subst (λ n. Permᴰ n (names_of (ordered s).properties))
            (ready.names_are ∙ scanned.names_are)
            (Permᴰ.map (λ p. p.name) (sort_by-Perm (λ p. p.name) s.properties));
      is_canonical =
          ordered-IsCanonical (types_of typed) (names_of typed) s (rw kind_is kind)
            (rw name_is name)
            (subst (λ k. normalize_ends s k ≡ ok s.labels) (sym kind_is) ends_again) some_name
            scanned.has_no_double (rw (keys_of typed) scanned.has_no_double) ready;
    })

normalize_typed-IsNormalized :
    (d : Definition) (labels : List Bytes) (typed : List Property) {e : Definition}
    → is_definition d.kind ≡ true
    → validate_public_name d.name ≡ ok tt
    → is_nil d.properties ≡ false
    → normalize_ends d d.kind ≡ ok labels
    → IsScanned [] d.properties typed
    → normalize_typed d labels typed ≡ ok e
    → IsNormalized d e
unfolding normalize_typed
normalize_typed-IsNormalized d labels typed kind name some_property ends scanned done =
    let types = types_of typed in
    let names = names_of typed in
    let (properties, found, after_found) =
      >>=-eq-ok (map_ok (normalize_members types names) typed) _ done in
    let (r, rest, last) =
      >>=-eq-ok (normalize_rest types names (record d { labels = labels; properties = properties }))
        _ after_found in
    let filled : AreFilled types names properties = record {
      each_is =
          map_ok-All (normalize_members types names) IsTyped (IsFilled types names) typed
            (λ p q t e. normalize_members-IsFilled types names p q t e) scanned.each_is found;
      names_are =
          map_ok-map (normalize_members types names) (λ p. p.name) (λ p. p.name) typed
            (λ p q e. (normalize_members-keeps types names p q e).0) found;
      types_are =
          map_ok-map (normalize_members types names) (λ p. (p.name, to_upper p.type_text))
            (λ p. (p.name, to_upper p.type_text)) typed
            (λ p q e.
              let (name, type) = normalize_members-keeps types names p q e in rw (name, type) refl)
            found;
    } in
    let is_rest =
      normalize_rest-IsRest types names (record d { labels = labels; properties = properties })
        (named_of typed scanned.each_is) filled rest in
    let (s, head, ready, is) =
      order_definition-IsReady types names r is_rest.constraints_hold is_rest.indexes_hold
        is_rest.properties_hold last in
    finished-IsNormalized d labels typed properties r s kind name some_property ends scanned
      is_rest.same_head head ready is

-- What `normalizeDefinition` returns is of the same kind, name, title, description and ends as what it
-- was given, with properties of the same names, and is canonical: its name, labels and ends pass their
-- checks; it has properties, each name once and in order, each of a type without vectors; the
-- constraints and indexes of a property are in order, pass their checks there, name no property
-- themselves, and none doubles the flag `unique`; those of the Definition are in order, pass
-- their checks against these properties, and none covers just one of them; no constraint name, index
-- name or rule of a constraint is there twice in the whole Definition.
pub normalize_definition-IsNormalized :
    (d e : Definition) → normalize_definition d ≡ ok e → IsNormalized d e
unfolding normalize_definition
normalize_definition-IsNormalized d e done =
    let (kind, after_kind) = >>-eq-ok (refuse (not (is_definition d.kind))) _ done in
    let (name, after_name) = >>-eq-ok (validate_public_name d.name) _ after_kind in
    let (some_property, after_some) =
      >>-eq-ok (guard (not (is_nil d.properties)) ErrorCode.invalid_argument) _ after_name in
    let (labels, ends, after_ends) = >>=-eq-ok (normalize_ends d d.kind) _ after_some in
    let (typed, scanned, last) = >>=-eq-ok (normalize_properties [] d.properties) _ after_ends in
    normalize_typed-IsNormalized d labels typed (not_false _ (refuse-eq-ok _ kind)) name
      (not_true _ (guard-eq-ok _ ErrorCode.invalid_argument some_property)) ends
      (normalize_properties-IsScanned [] d.properties scanned) last
  where
    not_false : (b : Bool) → not b ≡ false → b ≡ true
    not_false true e = refl
    not_false false e = cc

    not_true : (b : Bool) → not b ≡ true → b ≡ false
    not_true true e = cc
    not_true false e = refl
