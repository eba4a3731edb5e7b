-- ===== src/Daemon/WebSessions/Access.antt =====
-- Who is let in: what the tokens of a login and of a logout open.
use kg_os.Common.{
  ℕ, leb, ◌&&◌, ◌<◌, ◌+◌, Bytes, ◌++◌, true, Option, none, some, ok, err, ltb, bytes_eq,
  bytes_eq_refl, has_prefix-append, cut-append, length, length-append, ◌≡◌, refl, sym, ap, arith,
  Bool-cases, not, ◌∙◌, inl, inr, subst,
}
use kg_os.Common.Table.{find, put, keep, remove, find-put, find-remove_self, find-keep}
use kg_os.Daemon.WebSessions.{
  Crypto, Session, Sessions, Store, content, World, Called, web_session_lifetime, max_web_sessions,
  load_locked, save_locked, cleaned_locked, evict, issue, renewed, session_allows, token_allows,
  loaded_allows, token_prefix, new_web_secret, valid_web_secret, decodes_to, web_secret_hash,
  has_web_access_prefix, token_of, access_token_locked, with_cookie, login, logout, allows,
}
use kg_os.Daemon.WebSessions.Effects.{
  then_call-eq-ok, saved, save_locked-eq-ok, load_locked_loaded, load_locked-eq-ok, evict_keeps,
}

-- `base64.RawURLEncoding` decodes what it has encoded, and 32 bytes make 43 characters.
pub record Base64Laws (crypto : Crypto) : Type 0 where
  pub decode-encode : (raw : Bytes) → crypto.base64_decode (crypto.base64_encode raw) ≡ some raw
  pub length-encode : (raw : Bytes) → length raw ≡ 32 → length (crypto.base64_encode raw) ≡ 43

-- A token is let in if the store is loaded and holds a session behind it that has not expired.
allows_loaded :
    (crypto : Crypto) (now : ℕ) (token hash : Bytes) (session : Session) (s : Store)
    → s.loaded ≡ true
    → has_web_access_prefix crypto token ≡ true
    → find (crypto.sha256 token) s.access ≡ some hash
    → find hash s.sessions ≡ some session
    → (allows crypto now token s).1
      ≡ (bytes_eq session.root_hash s.root_hash && ltb now session.expires)
unfolding allows loaded_allows token_allows session_allows
allows_loaded crypto now token hash session s l p e f = rw (p, load_locked_loaded s l, e, f) refl

module _ (crypto : Crypto) (laws : Base64Laws crypto) where
  -- A secret that was drawn is a valid one, and a token of it has the form of one.
  new_web_secret-valid :
      (raw : Bytes) → length raw ≡ 32 → valid_web_secret crypto (crypto.base64_encode raw) ≡ true
  unfolding valid_web_secret decodes_to
  new_web_secret-valid raw n =
      rw
        (
          laws.length-encode raw n,
          laws.decode-encode raw,
          n,
          bytes_eq_refl (crypto.base64_encode raw),
        )
        refl

  token-shaped :
      (raw : Bytes)
      → length raw ≡ 32
      → has_web_access_prefix crypto (token_prefix ++ crypto.base64_encode raw) ≡ true
  unfolding has_web_access_prefix
  token-shaped raw n =
      rw
        (
          length-append token_prefix (crypto.base64_encode raw),
          laws.length-encode raw n,
          has_prefix-append token_prefix (crypto.base64_encode raw),
          cut-append token_prefix (crypto.base64_encode raw),
        )
        (new_web_secret-valid raw n)

  -- A token that was just issued for a session of this credential is let in until the session expires.
  issued_allows :
      (now : ℕ) (raw hash : Bytes) (session : Session) (s : Store)
      → length raw ≡ 32
      → s.loaded ≡ true
      → find hash s.sessions ≡ some session
      → session.root_hash ≡ s.root_hash
      → now < session.expires
      → let token = token_prefix ++ crypto.base64_encode raw in
        (allows crypto now token (issue (crypto.sha256 token) hash s)).1 ≡ true
  issued_allows now raw hash session s n l f r t =
      let token : Bytes = token_prefix ++ crypto.base64_encode raw in
      allows_loaded crypto now token hash session (issue (crypto.sha256 token) hash s) l
        (token-shaped raw n)
        (rw
          (
            find-put (crypto.sha256 token) (crypto.sha256 token) hash s.access,
            bytes_eq_refl (crypto.sha256 token),
          )
          refl)
        f
      ∙ rw (r, bytes_eq_refl s.root_hash) (ground arith)

  -- What `accessTokenLocked` returns is let in.
  token_of-allowed :
      (now : ℕ) (drawn : Option Bytes) (hash : Bytes) (session : Session) (s s' : Store)
      (token : Bytes)
      → ((raw : Bytes) → drawn ≡ some raw → length raw ≡ 32)
      → s.loaded ≡ true
      → find hash s.sessions ≡ some session
      → session.root_hash ≡ s.root_hash
      → now < session.expires
      → token_of crypto (new_web_secret crypto drawn) hash s ≡ (s', ok token)
      → (allows crypto now token s').1 ≡ true
  unfolding token_of new_web_secret
  token_of-allowed now none hash session s s' token n l f r t e = cc
  token_of-allowed now (some raw) hash session s s' token n l f r t e =
      let kept = evict_keeps s s.access_order in
      subst Lets e (
        issued_allows now raw hash session (evict s s.access_order) (n raw refl) (kept.0 ∙ l)
          (ap (find hash) kept.1 ∙ f) (r ∙ sym kept.2) t)
    where
      Lets : Called Bytes → Type 0
      Lets (s, ok token) = (allows crypto now token s).1 ≡ true
      Lets (s, err e) = Unit

  -- The session that a login or a renewal has saved lets its new token in.
  saved-allowed :
      (w : World) (now : ℕ) (hash : Bytes) (next : Sessions) (s s' s'' : Store) (a : Unit {0})
      (token : Bytes)
      → ((raw : Bytes) → w.random_token ≡ some raw → length raw ≡ 32)
      → s.loaded ≡ true
      → now < w.later + web_session_lifetime
      → save_locked w (put hash (renewed w s) next) s ≡ (s', ok a)
      → access_token_locked crypto w hash s' ≡ (s'', ok token)
      → (allows crypto now token s'').1 ≡ true
  unfolding access_token_locked saved
  saved-allowed w now hash next s s' s'' a token n l t e h =
      let is_saved = save_locked-eq-ok w _ s s' a e in
      token_of-allowed now w.random_token hash (renewed w s) s' s'' token n
        (ap (λ x. x.loaded) is_saved ∙ l)
        (ap (λ x. find hash x.sessions) is_saved
          ∙ find-put hash hash (renewed w s) next
          ∙ rw (bytes_eq_refl hash) refl)
        (sym (ap (λ x. x.root_hash) is_saved)) t h

  with_cookie-allowed :
      (w : World) (now : ℕ) (next : Sessions) (drawn : Option Bytes) (s s' : Store)
      (cookie token : Bytes)
      → ((raw : Bytes) → w.random_token ≡ some raw → length raw ≡ 32)
      → s.loaded ≡ true
      → now < w.later + web_session_lifetime
      → with_cookie crypto w next drawn s ≡ (s', ok (cookie, token))
      → (allows crypto now token s').1 ≡ true
  unfolding with_cookie
  with_cookie-allowed w now next none s s' cookie token n l t e = cc
  with_cookie-allowed w now next (some drawn) s s' cookie token n l t e =
      let (a, s1, save, rest) = then_call-eq-ok _ _ s' (cookie, token) e in
      let (token', s2, issued, done) = then_call-eq-ok _ _ s' (cookie, token) rest in
      let allowed =
        saved-allowed w now (web_secret_hash crypto drawn) next s s1 s2 a token' n l t save
          issued in
      subst Lets done allowed
    where
      Lets : Called (Bytes × Bytes) → Type 0
      Lets (s, ok (c, token)) = (allows crypto now token s).1 ≡ true
      Lets (s, err e) = Unit

  -- Where base64 decodes what it has encoded and random bytes come in 32s: the token that a login
  -- returns is let in at every time before thirty days have passed.
  pub login-allows :
      (w : World) (now : ℕ) (s s' : Store) (cookie token : Bytes)
      → ((raw : Bytes) → w.random_token ≡ some raw → length raw ≡ 32)
      → now < w.later + web_session_lifetime
      → login crypto w s ≡ (s', ok (cookie, token))
      → (allows crypto now token s').1 ≡ true
  unfolding login
  login-allows w now s s' cookie token n t e =
      let (a, s1, load, rest) = then_call-eq-ok (load_locked s) _ s' (cookie, token) e in
      elim (Bool-cases (leb max_web_sessions (length (cleaned_locked w.now s1)))) [
        | inl full ↦ cc (rw full at rest)
        | inr room ↦
            with_cookie-allowed w now (cleaned_locked w.now s1) (new_web_secret crypto w.random) s1
              s' cookie token n (load_locked-eq-ok s s1 a load) t (rw room at rest)
      ]

abbrev Forgets : Bytes → Store → Type 0
Forgets hash s =
    (find hash s.sessions ≡ none)
    × (s.file ≡ content 1 (some s.sessions))
    × ((digest : Bytes) → ¬ (find digest s.access ≡ some hash))

dropped-Forgets :
    (hash : Bytes) (next : Sessions) (s s' : Store)
    → s' ≡ saved (remove hash next) s
    → Forgets hash (record s' { access = keep (λ digest key. not (bytes_eq key hash)) s'.access })
unfolding saved
dropped-Forgets hash next s s' e = (
  ap (λ x. find hash x.sessions) e ∙ find-remove_self hash next,
  ap (λ x. x.file) e ∙ sym (ap (λ x. content 1 (some x.sessions)) e),
  λ digest found.
      itself (find-keep (λ digest key. not (bytes_eq key hash)) digest s'.access hash found),
)
  where
    itself : ¬ (not (bytes_eq hash hash) ≡ true)
    itself h = cc (rw (bytes_eq_refl hash) at h)

-- After a logout that succeeds: the session of its cookie is in neither the store nor the file, and no token
-- stands for it.
pub logout-forgets :
    (crypto : Crypto) (w : World) (cookie : Bytes) (s s' : Store)
    → logout crypto w cookie s ≡ (s', ok tt)
    → let hash = web_secret_hash crypto cookie in
      (find hash s'.sessions ≡ none)
      × (s'.file ≡ content 1 (some s'.sessions))
      × ((digest : Bytes) → ¬ (find digest s'.access ≡ some hash))
unfolding logout
logout-forgets crypto w cookie s s' e =
    let hash = web_secret_hash crypto cookie in
    let (a, s1, load, rest) = then_call-eq-ok (load_locked s) _ s' tt e in
    let (b, s2, save, done) = then_call-eq-ok (save_locked w _ s1) _ s' tt rest in
    subst (λ (m : Called (Unit {0})). Forgets hash m.0) done
      (dropped-Forgets hash (cleaned_locked w.now s1) s1 s2 (save_locked-eq-ok w _ s1 s2 b save))
