-- ===== src/Kernel/Model/Typed.antt =====
-- What the first loop of `normalizeDefinition` leaves of the properties.
use kg_os.Common.{
  Bytes, codes, [], List, ◌∷◌, map, Bool, true, false, not, ◌&&◌, if◌then◌else◌, bytes_eq_comm, ok,
  err, guard, guard-eq-ok, ◌≡◌, refl, ap₂, subst, arith, All, >>=-eq-ok, has_text, is_distinct,
  trim_space, to_upper, contains_text, each,
}
use kg_os.Kernel.Errors.{Result, ErrorCode}
use kg_os.Kernel.Model.{Property, refuse, is_nil, validate_public_name}
use kg_os.Kernel.Model.Loops.{>>-eq-ok, refuse-eq-ok}
use kg_os.Kernel.Model.Types.{
  unified, split_top_level_type_union, trim_top_level_not_null, with_members, of_union,
  normalize_property_nullability, any_not_null, all_not_null,
}
use kg_os.Kernel.Model.Members.{names_of}
use kg_os.Kernel.Model.Definitions.{normalize_property, normalize_properties}

-- A property of a name and an earlier name that pass their checks, and of a type without vectors.
pub record IsTyped (p : Property) : Type 0 where
  pub has_name : validate_public_name p.name ≡ ok tt
  pub no_vector : contains_text (to_upper p.type_text) (codes "VECTOR") ≡ false
  pub has_earlier :
      (if is_nil p.rename_from then ok tt else validate_public_name p.rename_from) ≡ ok tt

with_members-name :
    (p : Property) (members : List (Bytes × Bool)) {q : Property}
    → with_members p members ≡ ok q
    → q.name ≡ p.name
unfolding with_members
with_members-name p members {q} done =
    let (fine, same) =
      >>-eq-ok (refuse (any_not_null members && not (all_not_null members))) _ done in
    let is : unified p members ≡ q = cc same in
    subst (λ r. r.name ≡ p.name) is
      (each {A = Property} (λ r. r.name ≡ p.name) (all_not_null members) refl refl)

of_union-name :
    (p : Property) (members : Result (List Bytes)) {q : Property}
    → of_union p members ≡ ok q
    → q.name ≡ p.name
unfolding of_union
of_union-name p (err e) done = cc
of_union-name p (ok members) done = with_members-name p (map trim_top_level_not_null members) done

normalize_property-IsTyped :
    (p : Property) {q : Property}
    → validate_public_name p.name ≡ ok tt
    → normalize_property p ≡ ok q
    → IsTyped q × (q.name ≡ p.name)
unfolding normalize_property normalize_property_nullability
normalize_property-IsTyped p {q} named done =
    let trimmed : Property = record p { type_text = trim_space p.type_text } in
    let (filled, rest) = >>-eq-ok (refuse (is_nil trimmed.type_text)) _ done in
    let (r, united, checked) = >>=-eq-ok (normalize_property_nullability trimmed) _ rest in
    let (scalar, last) =
      >>-eq-ok (guard (not (contains_text (to_upper r.type_text) (codes "VECTOR"))) _) _ checked in
    let (earlier, same) =
      >>-eq-ok (if is_nil r.rename_from then ok tt else validate_public_name r.rename_from) _
        last in
    let is : r ≡ q = cc same in
    let name : r.name ≡ p.name =
      of_union-name trimmed (split_top_level_type_union trimmed.type_text) united in
    subst (λ r. IsTyped r × (r.name ≡ p.name)) is
      (
        record {
          has_name = rw name named;
          no_vector = not_true _ (guard-eq-ok _ ErrorCode.unsupported_operation scalar);
          has_earlier = earlier;
        },
        name,
      )
  where
    not_true : (b : Bool) → not b ≡ true → b ≡ false
    not_true true e = cc
    not_true false e = refl

-- The names are as they were, each once, and none was seen before.
pub record IsScanned (seen : List Bytes) (given result : List Property) : Type 0 where
  pub names_are : names_of result ≡ names_of given
  pub each_is : All IsTyped result
  pub has_no_double : is_distinct (names_of result) ≡ true
  pub is_new : All (λ p. has_text seen p.name ≡ false) result

later_new :
    (seen : List Bytes) (name : Bytes) (ps : List Property)
    → All (λ p. has_text (name ∷ seen) p.name ≡ false) ps
    → All (λ p. has_text seen p.name ≡ false) ps × (has_text (names_of ps) name ≡ false)
unfolding has_text
later_new seen name [] h = (tt, refl)
later_new seen name (p ∷ ps) (h, hs) =
    let (k, l) = later_new seen name ps hs in
    ((ground arith, k), ground (arith, bytes_eq_comm name p.name))

pub normalize_properties-IsScanned :
    (seen : List Bytes) (ps : List Property) {qs : List Property}
    → normalize_properties seen ps ≡ ok qs
    → IsScanned seen ps qs
unfolding normalize_properties is_distinct
normalize_properties-IsScanned seen [] {qs} done =
    let is : [] ≡ qs = cc done in
    subst (IsScanned seen []) is
      (record { names_are = refl; each_is = tt; has_no_double = refl; is_new = tt })
normalize_properties-IsScanned seen (p ∷ ps) {qs} done =
    let (named, rest) = >>-eq-ok (validate_public_name p.name) _ done in
    let (new, next) = >>-eq-ok (refuse (has_text seen p.name)) _ rest in
    let (q, first, more) = >>=-eq-ok (normalize_property p) _ next in
    let (rs, second, last) = >>=-eq-ok (normalize_properties (p.name ∷ seen) ps) _ more in
    let is : q ∷ rs ≡ qs = cc last in
    let (typed, name) = normalize_property-IsTyped p named first in
    let scanned = normalize_properties-IsScanned (p.name ∷ seen) ps second in
    let (older, other) = later_new seen p.name rs scanned.is_new in
    subst (IsScanned seen (p ∷ ps)) is (record {
      names_are = ap₂ (λ a b. a ∷ b) name scanned.names_are;
      each_is = (typed, scanned.each_is);
      has_no_double = rw (name, other, scanned.has_no_double) refl;
      is_new = (rw name (refuse-eq-ok _ new), older);
    })
