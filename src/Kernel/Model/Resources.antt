-- ===== src/Kernel/Model/Resources.antt =====
-- What the last sorting of `normalizeDefinition` cannot change: which names there are, and the types
-- that they stand for.
use kg_os.Common.{
  Bytes, [], List, ◌∷◌, ◌++◌, map, append_assoc, true, not, ◌&&◌, ◌||◌, if◌then◌else◌, some,
  bytes_eq, bytes_eq_iff, ok, ◌>>◌, ◌>>=◌, ◌≡◌, refl, ap, ap₂, subst₂, ◌∙◌, sym, arith, has_text,
  has_text-Perm, is_distinct, is_distinct-Perm, Permᴰ, sort_by-Perm, &&_split,
}
use mathlib.Core.List.Permᴰ.{nil, cons, swap, trans}
use mathlib.Core.List.Permᴰ
use mathlib.Core.Path.{fun_ext}
use kg_os.Common.Table.{find}
use kg_os.Kernel.Model.{
  Constraint, Index, Definition, refuse, is_nil, validate_public_name, normalize_set, each_ok,
  check_ref,
}
use kg_os.Kernel.Model.Members.{
  gather, given_name, constraint_sort_key, given_names, constraint_names, index_names, coverages,
  coverage, all_known, all_strings, check_constraint, check_index, normalize_index, effective,
  only_property, index_property, is_index_type,
}
use kg_os.Kernel.Model.Definitions.{ordered}

pub is_nil-Perm {ℓ} : {A : Type ℓ} {xs ys : List A} → Permᴰ xs ys → is_nil xs ≡ is_nil ys
is_nil-Perm nil = refl
is_nil-Perm (cons e d) = refl
is_nil-Perm (swap e f) = refl
is_nil-Perm (trans d f) = is_nil-Perm d ∙ is_nil-Perm f

module _ {ℓ} {A : Type ℓ} where
  swap_blocks : (x y r : List A) → Permᴰ (x ++ (y ++ r)) (y ++ (x ++ r))
  swap_blocks x y r =
      subst₂ (λ s t. Permᴰ s t) (append_assoc x y r) (append_assoc y x r)
        (Permᴰ.append_right r (Permᴰ.append_comm x y))

module _ {ℓ} {A : Type ℓ} where
  gather-Perm :
      (f : A → List Bytes) {xs ys : List A} → Permᴰ xs ys → Permᴰ (gather f xs) (gather f ys)
  unfolding gather
  gather-Perm f nil = nil
  gather-Perm f (cons {b = b} e d) = rw e (Permᴰ.append_left (f b) (gather-Perm f d))
  gather-Perm f (swap {a' = a} {b' = b} {l = xs} e g) =
      rw (e, g) (swap_blocks (f b) (f a) (gather f xs))
  gather-Perm f (trans d g) = trans (gather-Perm f d) (gather-Perm f g)

module _ {ℓ} {A : Type ℓ} where
  swap_both : {x y x' y' : List A} → Permᴰ x x' → Permᴰ y y' → Permᴰ (x ++ y) (x' ++ y')
  swap_both {y = y} {x' = x'} d e = trans (Permᴰ.append_right y d) (Permᴰ.append_left x' e)

-- The names and the coverages of a Definition that is put in order are the same.
pub constraint_names-ordered :
    (d : Definition) → Permᴰ (constraint_names d) (constraint_names (ordered d))
unfolding constraint_names
constraint_names-ordered d =
    swap_both (gather-Perm given_name (sort_by-Perm _ d.constraints))
      (gather-Perm (λ p. given_names p.constraints) (sort_by-Perm _ d.properties))

pub index_names-ordered : (d : Definition) → Permᴰ (index_names d) (index_names (ordered d))
unfolding index_names
index_names-ordered d =
    swap_both (Permᴰ.map (λ i. i.name) (sort_by-Perm (λ i. i.name) d.indexes))
      (gather-Perm (λ p. map (λ i. i.name) p.indexes) (sort_by-Perm _ d.properties))

pub coverages-ordered : (d : Definition) → Permᴰ (coverages d) (coverages (ordered d))
unfolding coverages
coverages-ordered d =
    swap_both (Permᴰ.map (coverage []) (sort_by-Perm constraint_sort_key d.constraints))
      (gather-Perm (λ p. map (coverage p.name) p.constraints) (sort_by-Perm _ d.properties))

-- In a map with each key once, the order of the entries does not show.
find-Perm :
    {m n : List (Bytes × Bytes)}
    → Permᴰ m n
    → is_distinct (map (λ e. e.0) m) ≡ true
    → (k : Bytes) → find k m ≡ find k n
unfolding find is_distinct has_text
find-Perm nil d k = refl
find-Perm (cons {b = (j, v)} e p) d k =
    rw e (ap (λ r. if bytes_eq j k then some v else r) (find-Perm p ((&&_split _ _ d).1) k))
find-Perm (swap {a' = (i, v)} {b' = (j, u)} {l = m} e f) d k =
    let apart : not (bytes_eq i j || has_text (map (λ e. e.0) m) j)
          && is_distinct (i ∷ map (λ e. e.0) m)
        ≡ true =
      rw (e, f) at d in
    rw (e, f) (ground (arith, bytes_eq_iff j k, bytes_eq_iff i k, bytes_eq_iff i j))
find-Perm (trans {l₁ = l} {l₂ = m} p q) d k =
    find-Perm p d k ∙ find-Perm q (sym (is_distinct-Perm (Permᴰ.map (λ e. e.0) p)) ∙ d) k

all_known-Perm :
    {names names' : List Bytes}
    → Permᴰ names names'
    → (ps : List Bytes) → all_known names ps ≡ all_known names' ps
unfolding all_known
all_known-Perm d [] = refl
all_known-Perm d (p ∷ ps) = ap₂ (λ a b. a && b) (has_text-Perm d p) (all_known-Perm d ps)

pub only_property-Perm :
    {names names' : List Bytes}
    → Permᴰ names names'
    → (ps : List Bytes) → only_property names ps ≡ only_property names' ps
unfolding only_property
only_property-Perm d [] = refl
only_property-Perm d (p ∷ []) = rw (has_text-Perm d p) refl
only_property-Perm d (p ∷ q ∷ ps) = refl

all_strings-Perm :
    {types types' : List (Bytes × Bytes)}
    → Permᴰ types types'
    → is_distinct (map (λ e. e.0) types) ≡ true
    → (ps : List Bytes) → all_strings types ps ≡ all_strings types' ps
unfolding all_strings
all_strings-Perm p d [] = refl
all_strings-Perm p d (x ∷ ps) = rw (find-Perm p d x, all_strings-Perm p d ps) refl

pub check_constraint-Perm :
    {names names' : List Bytes}
    → Permᴰ names names'
    → (local : Bytes) (c : Constraint)
    → check_constraint names local c ≡ check_constraint names' local c
unfolding check_constraint
check_constraint-Perm p local c = rw (all_known-Perm p (effective local c.properties)) refl

module _ {names names' : List Bytes} {types types' : List (Bytes × Bytes)} (p : Permᴰ names names')
    (q : Permᴰ types types') (d : is_distinct (map (λ e. e.0) types) ≡ true) where
  check_index-Perm :
      (local : Bytes) (i : Index)
      → check_index types names local i ≡ check_index types' names' local i
  unfolding check_index
  check_index-Perm local i =
      rw
        (
          all_known-Perm p (effective local i.properties),
          all_strings-Perm q d (effective local i.properties),
        )
        refl

  pub normalize_index-Perm :
      (local : Bytes) (i : Index)
      → normalize_index types names local i ≡ normalize_index types' names' local i
  unfolding normalize_index
  normalize_index-Perm local i =
      ap
        (λ check.
          validate_public_name i.name
          >> (refuse (not (is_index_type i.type_name))
              >> (normalize_set i.targets >>= λ targets.
                  each_ok check_ref targets
                  >> (check (record i { targets = targets })
                      >> ok (record i { targets = targets })))))
        (fun_ext λ j. check_index-Perm local j)

  pub index_property-Perm : (i : Index) → index_property names i ≡ index_property names' i
  unfolding index_property
  index_property-Perm i = rw (only_property-Perm p i.properties) refl
