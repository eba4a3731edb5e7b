-- ===== src/Kernel/Model/Domains.antt =====
-- The canonical form of a Domain.
use kg_os.Common.{
  Bytes, List, Bool, true, false, not, ok, ◌>>◌, ◌≡◌, refl, ◌∙◌, sym, subst, All, >>=-eq-ok,
  sort_texts, sort_texts-Perm, is_distinct, is_distinct-Perm, sort_by-Perm, sort_by-IsOrdered,
  sort_by-ordered, IsOrdered, Permᴰ,
}
use kg_os.Kernel.Model.{
  Domain, refuse, each_ok, check_ref, validate_public_name, normalize_set, normalize_domain,
}
use kg_os.Kernel.Model.Loops.{>>-eq-ok, refuse-eq-ok, each_ok-eq-ok}

pub normalize_set-Perm : {xs ys : List Bytes} → Permᴰ xs ys → normalize_set xs ≡ normalize_set ys
unfolding normalize_set
normalize_set-Perm d = rw (is_distinct-Perm d, sort_texts-Perm d) refl

-- What `normalize_set` returns is in order, has nothing twice, and is what it was given.
pub record IsSortedSet (values result : List Bytes) : Type 0 where
  pub is_perm : Permᴰ values result
  pub is_ordered : IsOrdered (λ s. s) result
  pub has_no_double : is_distinct result ≡ true

pub normalize_set-IsSortedSet :
    (values : List Bytes) {result : List Bytes}
    → normalize_set values ≡ ok result
    → IsSortedSet values result
unfolding normalize_set
normalize_set-IsSortedSet values {result} done =
    let (checked, same) = >>-eq-ok (refuse (not (is_distinct values))) _ done in
    let here : is_distinct values ≡ true =
      not_false (is_distinct values) (refuse-eq-ok _ checked) in
    let order : sort_texts values ≡ result = cc same in
    subst (IsSortedSet values) order (record {
      is_perm = sort_by-Perm (λ s. s) values;
      is_ordered = sort_by-IsOrdered (λ s. s) values;
      has_no_double = sym (is_distinct-Perm (sort_by-Perm (λ s. s) values)) ∙ here;
    })
  where
    not_false : (b : Bool) → not b ≡ false → b ≡ true
    not_false true e = refl
    not_false false e = cc

pub normalize_set-canonical :
    (result : List Bytes)
    → IsOrdered (λ s. s) result
    → is_distinct result ≡ true
    → normalize_set result ≡ ok result
unfolding normalize_set
normalize_set-canonical result o d = rw (d, sort_by-ordered (λ s. s) result o) refl

-- `normalizeDomain` gives the same for any two orders of the same Refs: one error, or one Domain.
pub normalize_domain-Perm :
    (d : Domain) (includes : List Bytes)
    → Permᴰ d.includes includes
    → normalize_domain (record d { includes = includes }) ≡ normalize_domain d
unfolding normalize_domain
normalize_domain-Perm d includes p = rw (normalize_set-Perm p) refl

-- The canonical form of a Domain.
pub record IsCanonicalDomain (given result : Domain) : Type 0 where
  pub name_is : result.name ≡ given.name
  pub title_is : result.title ≡ given.title
  pub description_is : result.description ≡ given.description
  pub has_name : validate_public_name result.name ≡ ok tt
  pub includes_are : IsSortedSet given.includes result.includes
  pub has_refs : All (λ ref. check_ref ref ≡ ok tt) result.includes
  pub is_fixed : normalize_domain result ≡ ok result

-- What `normalizeDomain` returns it leaves as it is; the name and each Ref pass their checks, and the
-- Refs are those that were given, in order and each once. The title and the description stay.
pub normalize_domain-IsCanonicalDomain :
    (d e : Domain) → normalize_domain d ≡ ok e → IsCanonicalDomain d e
unfolding normalize_domain
normalize_domain-IsCanonicalDomain d e done =
    let (named, rest) = >>-eq-ok (validate_public_name d.name) _ done in
    let (includes, set, checked) =
      >>=-eq-ok (normalize_set d.includes)
        (λ includes. each_ok check_ref includes >> ok (record d { includes = includes })) rest in
    let (refs, same) = >>-eq-ok (each_ok check_ref includes) _ checked in
    let is : record d { includes = includes } ≡ e = cc same in
    let set_of = normalize_set-IsSortedSet d.includes set in
    subst (IsCanonicalDomain d) is (record {
      name_is = refl;
      title_is = refl;
      description_is = refl;
      has_name = named;
      includes_are = set_of;
      has_refs = each_ok-eq-ok check_ref includes refs;
      is_fixed =
          rw (named, normalize_set-canonical includes set_of.is_ordered set_of.has_no_double, refs)
            refl;
    })
