-- ===== src/Tests/Sessions.antt =====
-- Browser sessions: internal/daemon/web_sessions.go.
use kg_os.Common.{
  ℕ, Bytes, codes, ◌++◌, ◌∷◌, [], List, Option, some, none, Bool, true, false, length, ok, ◌≡◌,
  refl, sym, subst, arith,
}
use kg_os.Common.Table.{find, put, keep, remove}
use kg_os.Daemon.WebSessions.{
  Crypto, Store, World, content, missing, new_web_session_store, Call, log_in, restoring, log_out,
  asked, run, login, logout, allows, load_locked, load_file, save_locked, cleaned_locked, evict,
  token_of, access_token_locked, new_web_secret, valid_web_secret, decodes_to, web_secret_hash,
  has_web_access_prefix, with_cookie, loaded_allows, token_allows, token_prefix,
}
use kg_os.Daemon.WebSessions.Invariant.{IsBounded}
use kg_os.Daemon.WebSessions.Bounds.{run-new_web_session_store}
use kg_os.Daemon.WebSessions.Access.{Base64Laws, login-allows, logout-forgets}

abbrev pad : Bytes
pad = codes "-----------"

drop_pad : Bytes → Bytes
drop_pad (a ∷ b ∷ c ∷ d ∷ e ∷ f ∷ g ∷ h ∷ i ∷ j ∷ k ∷ s) = s
drop_pad s = s

abbrev sample_crypto : Crypto
sample_crypto = record {
  sha256 = λ s. s;
  hex = λ s. s;
  base64_encode = λ s. pad ++ s;
  base64_decode = λ s. some (drop_pad s);
}

abbrev cookie_bytes : Bytes
cookie_bytes = codes "01234567890123456789012345678901"

abbrev token_bytes : Bytes
token_bytes = codes "abcdefghijabcdefghijabcdefghijab"

abbrev sample_world : World
sample_world = record {
  now = 100;
  later = 101;
  random = some cookie_bytes;
  random_token = some token_bytes;
  encoded_bytes = 200;
  written = true;
}

abbrev fresh : Store
fresh = new_web_session_store true (codes "root") missing

abbrev cookie : Bytes
cookie = pad ++ cookie_bytes

abbrev token : Bytes
token = token_prefix ++ pad ++ token_bytes

after_login : Store
after_login = (login sample_crypto sample_world fresh).0

sample_laws : Base64Laws sample_crypto
unfolding drop_pad
sample_laws = record { decode-encode = λ raw. refl; length-encode = λ raw n. omega (arith, n) }

login_runs : login sample_crypto sample_world fresh ≡ (after_login, ok (cookie, token))
unfolding login with_cookie load_locked load_file cleaned_locked keep save_locked put new_web_secret
    token_of access_token_locked evict after_login new_web_session_store web_secret_hash
login_runs = refl

login-allows_example : (allows sample_crypto 2592000 token after_login).1 ≡ true
login-allows_example =
    login-allows sample_crypto sample_laws sample_world 2592000 fresh after_login cookie token
      (λ raw e. subst (λ o. length_of o ≡ 32) e refl) (omega arith) login_runs
  where
    length_of : Option Bytes → ℕ
    length_of none = 32
    length_of (some raw) = length raw

after_logout : Store
after_logout = (logout sample_crypto sample_world cookie after_login).0

logout_runs : logout sample_crypto sample_world cookie after_login ≡ (after_logout, ok tt)
unfolding after_logout after_login logout remove login with_cookie load_locked load_file
    cleaned_locked keep save_locked put new_web_secret token_of access_token_locked evict
    new_web_session_store web_secret_hash
logout_runs = refl

logout-forgets_example :
    (find cookie after_logout.sessions ≡ none)
    × (after_logout.file ≡ content 1 (some after_logout.sessions))
    × ((digest : Bytes) → ¬ (find digest after_logout.access ≡ some cookie))
unfolding web_secret_hash
logout-forgets_example =
    logout-forgets sample_crypto sample_world cookie after_login after_logout logout_runs

refused_after_logout : (allows sample_crypto 102 token after_logout).1 ≡ false
unfolding allows has_web_access_prefix valid_web_secret decodes_to drop_pad loaded_allows
    token_allows find after_logout after_login logout remove login with_cookie load_locked load_file
    cleaned_locked keep save_locked put new_web_secret token_of access_token_locked evict
    new_web_session_store web_secret_hash kg_os.Common.has_prefix kg_os.Common.cut
    kg_os.Common.bytes_eq
refused_after_logout = refl

abbrev calls : List Call
calls =
    log_in sample_world
    ∷ restoring sample_world cookie
    ∷ asked 102 token
    ∷ log_out sample_world cookie
    ∷ []

run-new_web_session_store_example :
    IsBounded (run sample_crypto calls (new_web_session_store true (codes "root") missing))
run-new_web_session_store_example =
    run-new_web_session_store sample_crypto calls true (codes "root") missing
