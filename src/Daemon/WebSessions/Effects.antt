-- ===== src/Daemon/WebSessions/Effects.antt =====
-- What a call of the store has done where it succeeds.
use kg_os.Common.{
  ℕ, List, [], ◌∷◌, leb, Bytes, true, Option, none, some, ok, err, ltb, ◌==◌, length, ◌≡◌, refl,
  sym, ap, Bool-cases, ◌⊎◌, not, ◌||◌, ◌∙◌, inl, inr, subst,
}
use kg_os.Daemon.WebSessions.{
  Sessions, File, missing, unreadable, irregular, max_web_access_tokens, Store, content,
  has_invalid_record, max_web_session_file_bytes, World, Called, max_web_sessions, load_locked,
  load_file, load_content, save_locked, evict, then_call,
}

pub then_call-eq-ok {ℓ κ} :
    {A : Type ℓ} {B : Type κ} (m : Called A) (next : A → Store → Called B) (s : Store) (b : B)
    → then_call m next ≡ (s, ok b)
    → (a : A) × (s' : Store) × (m ≡ (s', ok a)) × (next a s' ≡ (s, ok b))
then_call-eq-ok (s', err e) next s b h = cc
then_call-eq-ok (s', ok a) next s b h = (a, s', refl, h)

IsErr {ℓ} : {A : Type ℓ} → Called A → Type 0
IsErr (s, ok a) = ⊥
IsErr (s, err e) = Unit

IsErr-ok {ℓ} : {A : Type ℓ} (m : Called A) (s : Store) (a : A) → m ≡ (s, ok a) → ¬ IsErr m
unfolding IsErr
IsErr-ok (s', ok b) s a e h = h
IsErr-ok (s', err f) s a e h = cc

unfoldable pub saved : Sessions → Store → Store
saved next s = record s { file = content 1 (some next); sessions = next }

save_locked_cases :
    (w : World) (next : Sessions) (s : Store)
    → IsErr (save_locked w next s) ⊎ (save_locked w next s ≡ (saved next s, ok tt))
unfolding save_locked IsErr saved
save_locked_cases w next s = elim (Bool-cases s.has_path) [
  | inl there ↦ rw there (elim (Bool-cases (ltb max_web_session_file_bytes w.encoded_bytes)) [
    | inl large ↦ rw large (inl tt)
    | inr fits ↦ rw fits (elim (Bool-cases w.written) [
      | inl done ↦ rw done (inr refl)
      | inr failed ↦ rw failed (inl tt)
    ])
  ])
  | inr nowhere ↦ rw nowhere (inl tt)
]

-- A successful save leaves the new sessions, in the file too.
pub save_locked-eq-ok :
    (w : World) (next : Sessions) (s s' : Store) (a : Unit {0})
    → save_locked w next s ≡ (s', ok a)
    → s' ≡ saved next s
save_locked-eq-ok w next s s' a e = elim (save_locked_cases w next s) [
  | inl failed ↦ absurd (IsErr-ok _ s' a e failed)
  | inr done ↦ sym (ap (λ m. m.0) (sym done ∙ e))
]

pub load_locked_loaded : (s : Store) → s.loaded ≡ true → load_locked s ≡ (s, ok tt)
unfolding load_locked
load_locked_loaded s e = rw e refl

load_content_cases :
    (s : Store) (version : ℕ) (sessions : Option Sessions)
    → IsErr (load_content s version sessions) ⊎ ((load_content s version sessions).0.loaded ≡ true)
unfolding load_content IsErr
load_content_cases s version none = inl tt
load_content_cases s version (some sessions) =
    elim (Bool-cases (not (version == 1) || ltb max_web_sessions (length sessions))) [
      | inl odd ↦ rw odd (inl tt)
      | inr fits ↦ rw fits (elim (Bool-cases (has_invalid_record sessions)) [
        | inl bad ↦ rw bad (inl tt)
        | inr good ↦ rw good (inr refl)
      ])
    ]

load_file_cases : (s : Store) (f : File) → IsErr (load_file s f) ⊎ ((load_file s f).0.loaded ≡ true)
unfolding load_file IsErr
load_file_cases s missing = inr refl
load_file_cases s unreadable = inl tt
load_file_cases s irregular = inl tt
load_file_cases s (content version sessions) = load_content_cases s version sessions

load_locked_cases : (s : Store) → IsErr (load_locked s) ⊎ ((load_locked s).0.loaded ≡ true)
unfolding load_locked IsErr
load_locked_cases s = elim (Bool-cases s.loaded) [
  | inl already ↦ rw already (inr refl)
  | inr fresh ↦ rw fresh (elim (Bool-cases s.has_path) [
    | inl there ↦ rw there (load_file_cases _ s.file)
    | inr nowhere ↦ rw nowhere (inl tt)
  ])
]

-- A successful load leaves a store that is loaded.
pub load_locked-eq-ok :
    (s s' : Store) (a : Unit {0}) → load_locked s ≡ (s', ok a) → s'.loaded ≡ true
load_locked-eq-ok s s' a e = elim (load_locked_cases s) [
  | inl failed ↦ absurd (IsErr-ok _ s' a e failed)
  | inr done ↦ subst (λ m. m.0.loaded ≡ true) e done
]

pub evict_keeps :
    (s : Store) (order : List Bytes)
    → ((evict s order).loaded ≡ s.loaded)
      × ((evict s order).sessions ≡ s.sessions)
      × ((evict s order).root_hash ≡ s.root_hash)
unfolding evict
evict_keeps s [] = (refl, refl, refl)
evict_keeps s (oldest ∷ order) =
    elim (Bool-cases (leb max_web_access_tokens (length (oldest ∷ order)))) [
      | inl full ↦ rw full (refl, refl, refl)
      | inr room ↦ rw room (refl, refl, refl)
    ]
