-- ===== src/Daemon/WebSessions/Bounds.antt =====
-- The bounds of the session store, whatever calls are made and whatever goes wrong in them.
use kg_os.Common.{
  ℕ, ◌<◌, Bytes, ◌∷◌, [], List, Bool, Option, none, some, leb, length, ◌≡◌, refl, inl, inr, arith,
  Bool-cases,
}
use kg_os.Common.Table.{find, put, length-put-le, AllEntries-keep}
use kg_os.Daemon.WebSessions.{
  Crypto, Session, Sessions, File, Store, World, max_web_sessions, load_locked, save_locked,
  is_live, cleaned_locked, token_of, access_token_locked, new_web_secret, web_secret_hash, renewed,
  with_cookie, login, with_record, restore, logout, allows, new_web_session_store, valid_web_secret,
  has_web_access_prefix, Call, log_in, restoring, log_out, asked, step, run,
}
use kg_os.Daemon.WebSessions.Invariant.{
  In, IsBounded, load_locked-IsBounded, save_locked-IsBounded, then_call-IsBounded, issue-IsBounded,
  fewer, renewal-le, remaining, remaining-le, loaded-IsBounded,
}

module _ (crypto : Crypto) where
  access_token_locked-IsBounded :
      (w : World) (hash : Bytes) (s : Store)
      → IsBounded s
      → IsBounded (access_token_locked crypto w hash s).0
  unfolding access_token_locked token_of
  access_token_locked-IsBounded w hash s h = at (new_web_secret crypto w.random_token)
    where
      at : (secret : Option Bytes) → IsBounded (token_of crypto secret hash s).0
      at none = h
      at (some secret) = issue-IsBounded s _ hash s.access_order refl h

  with_cookie-IsBounded :
      (w : World) (next : Sessions) (cookie : Option Bytes) (s : Store)
      → length next < max_web_sessions
      → IsBounded s
      → IsBounded (with_cookie crypto w next cookie s).0
  unfolding with_cookie
  with_cookie-IsBounded w next none s n h = h
  with_cookie-IsBounded w next (some cookie) s n h =
      let hash = web_secret_hash crypto cookie in
      let next' : Sessions = put hash (renewed w s) next in
      then_call-IsBounded (save_locked w next' s) _
        (save_locked-IsBounded w next' s (omega (arith, length-put-le hash (renewed w s) next)) h)
        (λ _ s' _ h'.
          then_call-IsBounded (access_token_locked crypto w hash s') _
            (access_token_locked-IsBounded w hash s' h') (λ _ s'' _ h''. h''))

  -- `login` keeps the bounds, whatever goes wrong in it.
  login-IsBounded : (w : World) (s : Store) → IsBounded s → IsBounded (login crypto w s).0
  unfolding login
  login-IsBounded w s h =
      then_call-IsBounded (load_locked s) _ (load_locked-IsBounded s h) λ _ s' _ h'.
        elim (Bool-cases (leb max_web_sessions (length (cleaned_locked w.now s')))) [
          | inl full ↦ rw full h'
          | inr room ↦ rw room (
              with_cookie-IsBounded w (cleaned_locked w.now s') (new_web_secret crypto w.random) s'
                (fewer _ _ room) h')
        ]

  with_record-IsBounded :
      (w : World) (hash : Bytes) (found : Option Session) (s : Store)
      → find hash s.sessions ≡ found
      → IsBounded s
      → IsBounded (with_record crypto w hash found s).0
  unfolding with_record
  with_record-IsBounded w hash none s e h = h
  with_record-IsBounded w hash (some session) s e h =
      elim (Bool-cases (is_live s.root_hash w.now session)) [
        | inl live ↦ rw live (
            then_call-IsBounded (save_locked w (put hash (renewed w s) (cleaned_locked w.now s)) s)
              _ (save_locked-IsBounded w _ s (renewal-le w hash session s e live h) h)
              (λ _ s' _ h'. access_token_locked-IsBounded w hash s' h'))
        | inr dead ↦ rw dead h
      ]

  -- `restore` keeps the bounds, whatever goes wrong in it.
  restore-IsBounded :
      (w : World) (cookie : Bytes) (s : Store)
      → IsBounded s
      → IsBounded (restore crypto w cookie s).0
  unfolding restore
  restore-IsBounded w cookie s h =
      then_call-IsBounded (load_locked s) _ (load_locked-IsBounded s h) λ _ s' _ h'.
        elim (Bool-cases (valid_web_secret crypto cookie)) [
          | inl valid ↦ rw valid (with_record-IsBounded w _ _ s' refl h')
          | inr odd ↦ rw odd h'
        ]

  -- `logout` keeps the bounds, whatever goes wrong in it.
  logout-IsBounded :
      (w : World) (cookie : Bytes) (s : Store)
      → IsBounded s
      → IsBounded (logout crypto w cookie s).0
  unfolding logout
  logout-IsBounded w cookie s h =
      then_call-IsBounded (load_locked s) _ (load_locked-IsBounded s h) λ _ s' _ h'.
        then_call-IsBounded (save_locked w (remaining crypto w cookie s') s') _
          (save_locked-IsBounded w (remaining crypto w cookie s') s'
            (remaining-le crypto w cookie s' h') h')
          (λ _ s'' _ h''. record {
            few_sessions = h''.few_sessions;
            few_tokens = h''.few_tokens;
            queued =
                AllEntries-keep (λ digest _. In digest s''.access_order) _ s''.access h''.queued;
          })

  -- `allows` keeps the bounds.
  allows-IsBounded :
      (now : ℕ) (token : Bytes) (s : Store) → IsBounded s → IsBounded (allows crypto now token s).0
  unfolding allows
  allows-IsBounded now token s h = elim (Bool-cases (has_web_access_prefix crypto token)) [
    | inl shaped ↦
        rw shaped
          (loaded-IsBounded now (crypto.sha256 token) (load_locked s) (load_locked-IsBounded s h))
    | inr other ↦ rw other h
  ]

  -- Each call keeps the bounds.
  step-IsBounded : (c : Call) (s : Store) → IsBounded s → IsBounded (step crypto c s)
  unfolding step
  step-IsBounded (log_in w) s h = login-IsBounded w s h
  step-IsBounded (restoring w cookie) s h = restore-IsBounded w cookie s h
  step-IsBounded (log_out w cookie) s h = logout-IsBounded w cookie s h
  step-IsBounded (asked now token) s h = allows-IsBounded now token s h

  run-IsBounded : (calls : List Call) (s : Store) → IsBounded s → IsBounded (run crypto calls s)
  unfolding run
  run-IsBounded [] s h = h
  run-IsBounded (c ∷ calls) s h = run-IsBounded calls (step crypto c s) (step-IsBounded c s h)

-- From a new store, whatever calls are made in whatever order, whatever the file holds and whatever
-- goes wrong in reading it, in writing it and in drawing random bytes, at most 64 sessions and at
-- most 512 access tokens are held, and each token that gives access stands in the queue from which
-- the oldest is forgotten.
pub run-new_web_session_store :
    (crypto : Crypto) (calls : List Call) (has_path : Bool) (root_hash : Bytes) (file : File)
    → IsBounded (run crypto calls (new_web_session_store has_path root_hash file))
unfolding new_web_session_store
run-new_web_session_store crypto calls has_path root_hash file =
    run-IsBounded crypto calls _
      (record { few_sessions = omega arith; few_tokens = omega arith; queued = tt })
