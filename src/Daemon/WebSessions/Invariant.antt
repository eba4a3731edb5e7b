-- ===== src/Daemon/WebSessions/Invariant.antt =====
-- The bounds of the session store, and that reading, writing and issuing a token keep them.
use kg_os.Common.{
  ℕ, ◌≤◌, ◌<◌, Bytes, ◌∷◌, [], List, ◌++◌, Bool, true, false, not, ◌||◌, Option, none, some, ok,
  err, ltb, leb, ◌==◌, bytes_eq, bytes_eq_iff, length, length-append, ◌≡◌, refl, sym, ap, ◌⊎◌, inl,
  inr, arith, Bool-cases, subst,
}
use kg_os.Common.Table.{
  find, put, keep, remove, length-put_present, length-keep-le, find-keep_present, AllEntries,
  AllEntries-put, AllEntries-keep_test, AllEntries-map,
}
use kg_os.Daemon.WebSessions.{
  Crypto, Session, Sessions, File, content, Store, World, Called, max_web_sessions,
  max_web_access_tokens, load_content, load_file, load_locked, has_invalid_record, missing,
  unreadable, irregular, save_locked, is_live, cleaned_locked, evict, web_secret_hash, then_call,
  issue, renewed, loaded_allows,
}

abbrev pub In : Bytes → List Bytes → Type 0
In k [] = ⊥
In k (x ∷ xs) = (x ≡ k) ⊎ In k xs

pub record IsBounded (s : Store) : Type 0 where
  pub few_sessions : length s.sessions ≤ max_web_sessions
  pub few_tokens : length s.access_order ≤ max_web_access_tokens
  pub queued : AllEntries (λ digest _. In digest s.access_order) s.access

In-append : (k : Bytes) (xs ys : List Bytes) → In k xs → In k (xs ++ ys)
In-append k [] ys h = absurd h
In-append k (x ∷ xs) ys (inl e) = inl e
In-append k (x ∷ xs) ys (inr h) = inr (In-append k xs ys h)

In-append_last : (k : Bytes) (xs : List Bytes) → In k (xs ++ k ∷ [])
In-append_last k [] = inl refl
In-append_last k (x ∷ xs) = inr (In-append_last k xs)

load_content-IsBounded :
    (s : Store) (version : ℕ) (sessions : Option Sessions)
    → IsBounded s
    → IsBounded (load_content s version sessions).0
unfolding load_content
load_content-IsBounded s version none h = h
load_content-IsBounded s version (some sessions) h =
    elim (Bool-cases (not (version == 1) || ltb max_web_sessions (length sessions))) [
      | inl odd ↦ rw odd h
      | inr fits ↦ rw fits (elim (Bool-cases (has_invalid_record sessions)) [
        | inl bad ↦ rw bad h
        | inr good ↦
            rw good
              (record { few_sessions = ground arith; few_tokens = h.few_tokens; queued = h.queued })
      ])
    ]

load_file-IsBounded : (s : Store) (f : File) → IsBounded s → IsBounded (load_file s f).0
unfolding load_file
load_file-IsBounded s missing h = record {
  few_sessions = h.few_sessions;
  few_tokens = h.few_tokens;
  queued = h.queued;
}
load_file-IsBounded s unreadable h = h
load_file-IsBounded s irregular h = h
load_file-IsBounded s (content version sessions) h = load_content-IsBounded s version sessions h

load_locked_cases :
    (s : Store) → (s ≡ (load_locked s).0) ⊎ ((load_file s s.file).0 ≡ (load_locked s).0)
unfolding load_locked
load_locked_cases s = ground arith

-- Whatever the file holds, loading it keeps the bounds.
pub load_locked-IsBounded : (s : Store) → IsBounded s → IsBounded (load_locked s).0
load_locked-IsBounded s h = elim (load_locked_cases s) [
  | inl same ↦ subst IsBounded same h
  | inr read ↦ subst IsBounded read (load_file-IsBounded s s.file h)
]

abbrev saved : Sessions → Store → Store
saved next s = record s { file = content 1 (some next); sessions = next }

save_locked_cases :
    (w : World) (next : Sessions) (s : Store)
    → (s ≡ (save_locked w next s).0) ⊎ (saved next s ≡ (save_locked w next s).0)
unfolding save_locked
save_locked_cases w next s = ground arith

pub save_locked-IsBounded :
    (w : World) (next : Sessions) (s : Store)
    → length next ≤ max_web_sessions
    → IsBounded s
    → IsBounded (save_locked w next s).0
save_locked-IsBounded w next s n h = elim (save_locked_cases w next s) [
  | inl same ↦ subst IsBounded same h
  | inr new ↦
      subst IsBounded new
        (record { few_sessions = n; few_tokens = h.few_tokens; queued = h.queued })
]

pub then_call-IsBounded {ℓ κ} :
    {A : Type ℓ} {B : Type κ} (m : Called A) (next : A → Store → Called B)
    → IsBounded m.0
    → ((a : A) (s : Store) → m ≡ (s, ok a) → IsBounded s → IsBounded (next a s).0)
    → IsBounded (then_call m next).0
then_call-IsBounded (s, err e) next h k = h
then_call-IsBounded (s, ok a) next h k = k a s refl h

abbrev Queued : List Bytes → List (Bytes × Bytes) → Type 0
Queued order access = AllEntries (λ digest _. In digest order) access

Queued-put :
    (digest hash : Bytes) (order : List Bytes) (access : List (Bytes × Bytes))
    → Queued order access
    → Queued (order ++ digest ∷ []) (put digest hash access)
Queued-put digest hash order access h =
    AllEntries-put (λ k _. In k (order ++ digest ∷ [])) digest hash access
      (In-append_last digest order)
      (AllEntries-map (λ k _. In k order) (λ k _. In k (order ++ digest ∷ [])) access
        (λ k v q. In-append k order (digest ∷ []) q) h)

In-behind :
    (oldest k : Bytes) (order : List Bytes)
    → In k (oldest ∷ order)
    → not (bytes_eq k oldest) ≡ true
    → In k order
In-behind oldest k order (inl e) h = cc (rw ((bytes_eq_iff k oldest).1 (sym e)) at h)
In-behind oldest k order (inr q) h = q

Queued-remove :
    (oldest : Bytes) (order : List Bytes) (access : List (Bytes × Bytes))
    → Queued (oldest ∷ order) access
    → Queued order (remove oldest access)
unfolding remove
Queued-remove oldest order access h =
    AllEntries-keep_test (λ k _. In k (oldest ∷ order)) (λ k _. In k order) _ access
      (λ k v q t. In-behind oldest k order q t) h

pub fewer : (n m : ℕ) → leb m n ≡ false → n < m
fewer n m e = ground arith

-- A new token is queued, and the oldest one makes room for it.
pub issue-IsBounded :
    (s : Store) (digest hash : Bytes) (order : List Bytes)
    → s.access_order ≡ order
    → IsBounded s
    → IsBounded (issue digest hash (evict s order))
unfolding evict
issue-IsBounded s digest hash [] e h = record {
  few_sessions = h.few_sessions;
  few_tokens = rw e (omega arith);
  queued = Queued-put digest hash s.access_order s.access h.queued;
}
issue-IsBounded s digest hash (oldest ∷ order) e h =
    elim (Bool-cases (leb max_web_access_tokens (length (oldest ∷ order)))) [
      | inl full ↦ rw full (record {
        few_sessions = h.few_sessions;
        few_tokens = omega (arith, length-append order (digest ∷ []), ap length e, h.few_tokens);
        queued =
            Queued-put digest hash order (remove oldest s.access)
              (Queued-remove oldest order s.access (subst (λ o. Queued o s.access) e h.queued));
      })
      | inr room ↦ rw room (record {
        few_sessions = h.few_sessions;
        few_tokens = roomy (fewer _ _ room);
        queued = Queued-put digest hash s.access_order s.access h.queued;
      })
    ]
  where
    roomy :
        length (oldest ∷ order) < max_web_access_tokens
        → length (s.access_order ++ digest ∷ []) ≤ max_web_access_tokens
    roomy few = omega (arith, length-append s.access_order (digest ∷ []), ap length e)

pub renewal-le :
    (w : World) (hash : Bytes) (session : Session) (s : Store)
    → find hash s.sessions ≡ some session
    → is_live s.root_hash w.now session ≡ true
    → IsBounded s
    → length (put hash (renewed w s) (cleaned_locked w.now s)) ≤ max_web_sessions
unfolding cleaned_locked
renewal-le w hash session s e live h =
    let p : Bytes → Session → Bool = λ _ old. is_live s.root_hash w.now old in
    omega (
      arith,
      length-keep-le p s.sessions,
      h.few_sessions,
      length-put_present hash (renewed w s) (keep p s.sessions) session
          (find-keep_present p hash s.sessions session e live),
    )

abbrev pub remaining : Crypto → World → Bytes → Store → Sessions
remaining crypto w cookie s = remove (web_secret_hash crypto cookie) (cleaned_locked w.now s)

pub remaining-le :
    (crypto : Crypto) (w : World) (cookie : Bytes) (s : Store)
    → IsBounded s
    → length (remaining crypto w cookie s) ≤ max_web_sessions
unfolding cleaned_locked remove
remaining-le crypto w cookie s h =
    let p : Bytes → Session → Bool = λ _ old. is_live s.root_hash w.now old in
    omega (
      arith,
      h.few_sessions,
      length-keep-le p s.sessions,
      length-keep-le (λ j _. not (bytes_eq j (web_secret_hash crypto cookie))) (keep p s.sessions),
    )

pub loaded-IsBounded :
    (now : ℕ) (digest : Bytes) (m : Called (Unit {0}))
    → IsBounded m.0
    → IsBounded (loaded_allows now digest m).0
unfolding loaded_allows
loaded-IsBounded now digest (s, err e) h = h
loaded-IsBounded now digest (s, ok a) h = h
