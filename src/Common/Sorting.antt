-- ===== src/Common/Sorting.antt =====
-- `sort.Strings` and `sort.SliceStable`: by a text that is each element's key.
use mathlib.Core.Path.{◌≡◌, refl, ap, ap₂, ◌∙◌}
use mathlib.Core.Bool.{Bool, true, false, not, ◌&&◌, ◌||◌}
use mathlib.Core.List.{List, [], ◌∷◌}
use mathlib.Core.List.{Permᴰ}
use mathlib.Core.List.Permᴰ.{nil, cons, swap, trans}
use mathlib.Core.List.Permᴰ
use native.Mathlib.Omega.{arith}
use kg_os.Common.Tests.{if◌then◌else◌}
use kg_os.Common.Lists.{All}
use kg_os.Common.Strings.{Bytes, bytes_eq}
use kg_os.Common.Spaces.{text_leb}
use kg_os.Common.Results.{each, each_by}

pub text_leb_refl : (s : Bytes) → text_leb s s ≡ true
unfolding text_leb
text_leb_refl [] = refl
text_leb_refl (a ∷ s) = ground (arith, text_leb_refl s)

pub text_leb_total : (s t : Bytes) → text_leb s t ≡ false → text_leb t s ≡ true
unfolding text_leb
text_leb_total [] t h = cc
text_leb_total (a ∷ s) [] h = refl
text_leb_total (a ∷ s) (b ∷ t) h = ground (arith, text_leb_total s t)

pub text_leb_antisym : (s t : Bytes) → text_leb s t ≡ true → text_leb t s ≡ true → s ≡ t
unfolding text_leb
text_leb_antisym [] [] h k = refl
text_leb_antisym [] (b ∷ t) h k = cc
text_leb_antisym (a ∷ s) [] h k = cc
text_leb_antisym (a ∷ s) (b ∷ t) h k = ground (arith, text_leb_antisym s t)

pub text_leb_trans :
    (s t u : Bytes) → text_leb s t ≡ true → text_leb t u ≡ true → text_leb s u ≡ true
unfolding text_leb
text_leb_trans [] t u h k = refl
text_leb_trans (a ∷ s) [] u h k = cc
text_leb_trans (a ∷ s) (b ∷ t) [] h k = cc
text_leb_trans (a ∷ s) (b ∷ t) (c ∷ u) h k = ground (arith, text_leb_trans s t u)

module _ {ℓ} {A : Type ℓ} (key : A → Bytes) where
  unfoldable pub insert_by : A → List A → List A
  insert_by a [] = a ∷ []
  insert_by a (b ∷ bs) =
      let rest = insert_by a bs in if text_leb (key a) (key b) then a ∷ b ∷ bs else b ∷ rest

  unfoldable pub sort_by : List A → List A
  unfolding insert_by
  sort_by [] = []
  sort_by (a ∷ xs) = insert_by a (sort_by xs)

  -- No key is over a later one.
  abbrev pub IsOrdered : List A → Type 0
  IsOrdered [] = Unit
  IsOrdered (a ∷ bs) = All (λ b. text_leb (key a) (key b) ≡ true) bs × IsOrdered bs

  module _ {κ} (P : A → Type κ) where
    pub All-insert_by : (a : A) (bs : List A) → P a → All P bs → All P (insert_by a bs)
    unfolding insert_by
    All-insert_by a [] h hs = (h, tt)
    All-insert_by a (b ∷ bs) h (g, gs) =
        each (All P) (text_leb (key a) (key b)) (h, (g, gs)) (g, All-insert_by a bs h gs)

    pub All-sort_by : (xs : List A) → All P xs → All P (sort_by xs)
    unfolding sort_by
    All-sort_by [] h = tt
    All-sort_by (a ∷ xs) (h, hs) = All-insert_by a (sort_by xs) h (All-sort_by xs hs)

  All-after :
      (a b : A) (bs : List A)
      → text_leb (key a) (key b) ≡ true
      → All (λ c. text_leb (key b) (key c) ≡ true) bs
      → All (λ c. text_leb (key a) (key c) ≡ true) bs
  All-after a b [] h hs = tt
  All-after a b (c ∷ bs) h (g, gs) =
      (text_leb_trans (key a) (key b) (key c) h g, All-after a b bs h gs)

  insert_by-IsOrdered : (a : A) (bs : List A) → IsOrdered bs → IsOrdered (insert_by a bs)
  unfolding insert_by
  insert_by-IsOrdered a [] h = (tt, tt)
  insert_by-IsOrdered a (b ∷ bs) (h, hs) =
      each_by IsOrdered (text_leb (key a) (key b))
        (λ before. ((before, All-after a b bs before h), (h, hs)))
        (λ behind. (
          All-insert_by (λ c. text_leb (key b) (key c) ≡ true) a bs
              (text_leb_total (key a) (key b) behind) h,
          insert_by-IsOrdered a bs hs,
        ))

  pub sort_by-IsOrdered : (xs : List A) → IsOrdered (sort_by xs)
  unfolding sort_by
  sort_by-IsOrdered [] = tt
  sort_by-IsOrdered (a ∷ xs) = insert_by-IsOrdered a (sort_by xs) (sort_by-IsOrdered xs)

  -- Sorting what is in order changes nothing.
  pub sort_by-ordered : (xs : List A) → IsOrdered xs → sort_by xs ≡ xs
  unfolding sort_by insert_by
  sort_by-ordered [] h = refl
  sort_by-ordered (a ∷ []) h = refl
  sort_by-ordered (a ∷ b ∷ xs) ((h, hs), k) = rw (sort_by-ordered (b ∷ xs) k, h) refl

-- Insertions in either order.
insert_by-swap :
    (a b : Bytes) (bs : List Bytes)
    → insert_by (λ s. s) a (insert_by (λ s. s) b bs)
      ≡ insert_by (λ s. s) b (insert_by (λ s. s) a bs)
unfolding insert_by
insert_by-swap a b [] = ground (arith, text_leb_total a b, text_leb_antisym a b)
insert_by-swap a b (c ∷ bs) = ground (
  arith,
  text_leb_total a b,
  text_leb_antisym a b,
  text_leb_trans a b c,
  text_leb_trans b a c,
  insert_by-swap a b bs,
)

abbrev pub sort_texts : List Bytes → List Bytes
sort_texts = sort_by (λ s. s)

-- The order that a list had is forgotten.
pub sort_texts-Perm : {xs ys : List Bytes} → Permᴰ xs ys → sort_texts xs ≡ sort_texts ys
unfolding sort_by
sort_texts-Perm nil = refl
sort_texts-Perm (cons {b = b} {l₁ = xs} {l₂ = ys} e d) =
    rw e (ap (insert_by (λ s. s) b) (sort_texts-Perm d))
sort_texts-Perm (swap {a = a} {b = b} {l = xs} e f) = rw (e, f) (insert_by-swap _ _ (sort_texts xs))
sort_texts-Perm (trans d f) = sort_texts-Perm d ∙ sort_texts-Perm f

unfoldable pub has_text : List Bytes → Bytes → Bool
has_text [] s = false
has_text (t ∷ ts) s = bytes_eq t s || has_text ts s

-- No text is there twice.
unfoldable pub is_distinct : List Bytes → Bool
is_distinct [] = true
is_distinct (s ∷ ss) = not (has_text ss s) && is_distinct ss

pub has_text-Perm : {xs ys : List Bytes} → Permᴰ xs ys → (s : Bytes) → has_text xs s ≡ has_text ys s
unfolding has_text
has_text-Perm nil s = refl
has_text-Perm (cons {b = b} e d) s = rw e (ap (λ t. bytes_eq b s || t) (has_text-Perm d s))
has_text-Perm (swap {a = a} {b = b} {l = xs} e f) s = rw (e, f) (ground arith)
has_text-Perm (trans d f) s = has_text-Perm d s ∙ has_text-Perm f s

pub bytes_eq_comm : (s t : Bytes) → bytes_eq s t ≡ bytes_eq t s
unfolding bytes_eq
bytes_eq_comm [] [] = refl
bytes_eq_comm [] (b ∷ t) = refl
bytes_eq_comm (a ∷ s) [] = refl
bytes_eq_comm (a ∷ s) (b ∷ t) = ground (arith, bytes_eq_comm s t)

pub is_distinct-Perm : {xs ys : List Bytes} → Permᴰ xs ys → is_distinct xs ≡ is_distinct ys
unfolding is_distinct has_text
is_distinct-Perm nil = refl
is_distinct-Perm (cons {b = b} e d) =
    rw e (ap₂ (λ t u. not t && u) (has_text-Perm d b) (is_distinct-Perm d))
is_distinct-Perm (swap {a = a} {b = b} {l = xs} e f) = rw (e, f) (ground (arith, bytes_eq_comm a b))
is_distinct-Perm (trans d f) = is_distinct-Perm d ∙ is_distinct-Perm f

module _ {ℓ} {A : Type ℓ} (key : A → Bytes) where
  insert_by-Perm : (a : A) (bs : List A) → Permᴰ (a ∷ bs) (insert_by key a bs)
  unfolding insert_by
  insert_by-Perm a [] = cons refl nil
  insert_by-Perm a (b ∷ bs) =
      each (Permᴰ (a ∷ b ∷ bs)) (text_leb (key a) (key b)) (Permᴰ.refl (a ∷ b ∷ bs))
        (trans (swap refl refl) (cons refl (insert_by-Perm a bs)))

  pub sort_by-Perm : (xs : List A) → Permᴰ xs (sort_by key xs)
  unfolding sort_by
  sort_by-Perm [] = nil
  sort_by-Perm (a ∷ xs) = trans (cons refl (sort_by-Perm xs)) (insert_by-Perm a (sort_by key xs))
