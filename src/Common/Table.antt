-- ===== src/Common/Table.antt =====
-- Go maps with text keys, as association lists with each key once.
use kg_os.Common.{
  ◌≤◌, ◌+◌, Bytes, ◌∷◌, [], List, Bool, true, not, Option, none, some, if◌then◌else◌, bytes_eq,
  bytes_eq_iff, length, ◌≡◌, refl, arith, Bool-cases, inl, inr, subst₂,
}

module _ {ℓ} {V : Type ℓ} where
  -- `v, ok := m[k]`.
  unfoldable pub find : Bytes → List (Bytes × V) → Option V
  find k [] = none
  find k ((j, v) ∷ m) = if bytes_eq j k then some v else find k m

  -- `m[k] = v`.
  unfoldable pub put : Bytes → V → List (Bytes × V) → List (Bytes × V)
  put k v [] = (k, v) ∷ []
  put k v ((j, w) ∷ m) = if bytes_eq j k then (k, v) ∷ m else (j, w) ∷ put k v m

  -- The entries that a loop keeps, or that it does not delete.
  unfoldable pub keep : (Bytes → V → Bool) → List (Bytes × V) → List (Bytes × V)
  keep p [] = []
  keep p ((j, v) ∷ m) = let rest = keep p m in if p j v then (j, v) ∷ rest else rest

  -- `delete(m, k)`.
  unfoldable pub remove : Bytes → List (Bytes × V) → List (Bytes × V)
  unfolding keep
  remove k m = keep (λ j v. not (bytes_eq j k)) m

  pub find-put :
      (k j : Bytes) (v : V) (m : List (Bytes × V))
      → find j (put k v m) ≡ (if bytes_eq k j then some v else find j m)
  unfolding find put
  find-put k j v [] = refl
  find-put k j v ((i, w) ∷ m) =
      ground (arith, bytes_eq_iff k j, bytes_eq_iff i k, bytes_eq_iff i j, find-put k j v m)

  pub find-remove_self : (k : Bytes) (m : List (Bytes × V)) → find k (remove k m) ≡ none
  unfolding find remove
  find-remove_self k [] = refl
  find-remove_self k ((i, w) ∷ m) = ground (arith, find-remove_self k m)

  -- What is kept was there, and passes the test.
  pub find-keep :
      (p : Bytes → V → Bool) (k : Bytes) (m : List (Bytes × V)) (v : V)
      → find k (keep p m) ≡ some v
      → p k v ≡ true
  unfolding find keep
  find-keep p k [] v e = cc
  find-keep p k ((i, w) ∷ m) v e = ground (arith, bytes_eq_iff i k, find-keep p k m v)

  pub length-put-le : (k : Bytes) (v : V) (m : List (Bytes × V)) → length (put k v m) ≤ length m + 1
  unfolding put
  length-put-le k v [] = omega arith
  length-put-le k v ((j, w) ∷ m) = ground (arith, length-put-le k v m)

  -- Where the key is there, nothing is added.
  pub length-put_present :
      (k : Bytes) (v : V) (m : List (Bytes × V)) (w : V)
      → find k m ≡ some w
      → length (put k v m) ≡ length m
  unfolding find put
  length-put_present k v [] w e = cc
  length-put_present k v ((j, x) ∷ m) w e = ground (arith, length-put_present k v m w)

  pub length-keep-le : (p : Bytes → V → Bool) (m : List (Bytes × V)) → length (keep p m) ≤ length m
  unfolding keep
  length-keep-le p [] = omega arith
  length-keep-le p ((j, w) ∷ m) = ground (arith, length-keep-le p m)

  -- A property of the entries.
  abbrev pub AllEntries : (Bytes → V → Type 0) → List (Bytes × V) → Type 0
  AllEntries P [] = Unit
  AllEntries P ((j, v) ∷ m) = P j v × AllEntries P m

  pub AllEntries-keep :
      (P : Bytes → V → Type 0) (p : Bytes → V → Bool) (m : List (Bytes × V))
      → AllEntries P m
      → AllEntries P (keep p m)
  unfolding keep
  AllEntries-keep P p [] h = tt
  AllEntries-keep P p ((j, v) ∷ m) (h, k) = ground (arith, AllEntries-keep P p m k)

  pub AllEntries-put :
      (P : Bytes → V → Type 0) (k : Bytes) (v : V) (m : List (Bytes × V))
      → P k v
      → AllEntries P m
      → AllEntries P (put k v m)
  unfolding put
  AllEntries-put P k v [] h hs = (h, tt)
  AllEntries-put P k v ((j, w) ∷ m) h (g, gs) = ground (arith, AllEntries-put P k v m h gs)

  pub AllEntries-find :
      (P : Bytes → V → Type 0) (k : Bytes) (m : List (Bytes × V)) {v : V}
      → AllEntries P m
      → find k m ≡ some v
      → P k v
  unfolding find
  AllEntries-find P k [] h e = cc
  AllEntries-find P k ((j, w) ∷ m) (h, hs) e = elim (Bool-cases (bytes_eq j k)) [
    | inl here ↦ let same : w ≡ _ = cc (rw here at e) in subst₂ P ((bytes_eq_iff j k).0 here) same h
    | inr later ↦ AllEntries-find P k m hs (rw later at e)
  ]

  -- What is there and passes the test is kept.
  pub find-keep_present :
      (p : Bytes → V → Bool) (k : Bytes) (m : List (Bytes × V)) (v : V)
      → find k m ≡ some v
      → p k v ≡ true
      → find k (keep p m) ≡ some v
  unfolding find keep
  find-keep_present p k [] v e h = cc
  find-keep_present p k ((i, w) ∷ m) v e h =
      ground (arith, bytes_eq_iff i k, find-keep_present p k m v)

  -- Nothing is kept that was not there.
  pub find-keep-none :
      (p : Bytes → V → Bool) (k : Bytes) (m : List (Bytes × V))
      → find k m ≡ none
      → find k (keep p m) ≡ none
  unfolding find keep
  find-keep-none p k [] e = refl
  find-keep-none p k ((i, w) ∷ m) e = ground (arith, find-keep-none p k m)

  -- What is kept has the property that the test gives.
  pub AllEntries-keep_test :
      (P Q : Bytes → V → Type 0) (p : Bytes → V → Bool) (m : List (Bytes × V))
      → ((k : Bytes) (v : V) → P k v → p k v ≡ true → Q k v)
      → AllEntries P m
      → AllEntries Q (keep p m)
  unfolding keep
  AllEntries-keep_test P Q p [] f h = tt
  AllEntries-keep_test P Q p ((j, v) ∷ m) f (h, k) = elim (Bool-cases (p j v)) [
    | inl kept ↦ rw kept (f j v h kept, AllEntries-keep_test P Q p m f k)
    | inr dropped ↦ rw dropped (AllEntries-keep_test P Q p m f k)
  ]

  pub AllEntries-map :
      (P Q : Bytes → V → Type 0) (m : List (Bytes × V))
      → ((k : Bytes) (v : V) → P k v → Q k v)
      → AllEntries P m
      → AllEntries Q m
  AllEntries-map P Q [] f h = tt
  AllEntries-map P Q ((j, v) ∷ m) f (h, k) = (f j v h, AllEntries-map P Q m f k)
