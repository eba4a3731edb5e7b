-- ===== src/Daemon/WebSessions.antt =====
-- internal/daemon/web_sessions.go: the browser sessions of the Web UI. A file is what reading it
-- gives: what `json.Unmarshal` answers stands for its bytes.
pub mod Invariant
pub mod Bounds
pub mod Effects
pub mod Access
use kg_os.Common.{
  ℕ, zero, suc, ◌+◌, ◌*◌, Bytes, codes, ◌∷◌, [], List, ◌++◌, Bool, true, false, not, ◌||◌, ◌&&◌,
  Option, none, some, Outcome, ok, err, if◌then◌else◌, ltb, leb, ◌==◌, bytes_eq, has_prefix, cut,
  length,
}
use kg_os.Common.Table.{find, put, keep, remove}

-- What the code calls of Go's libraries: `sha256.Sum256`, `hex.EncodeToString`, and
-- `base64.RawURLEncoding`.
pub record Crypto : Type 0 where
  pub sha256 : Bytes → Bytes
  pub hex : Bytes → Bytes
  pub base64_encode : Bytes → Bytes
  pub base64_decode : Bytes → Option Bytes

pub data Fault : Type 0 where
  no_instance_directory not_readable invalid_file unsupported_format invalid_records unavailable
        budget_exceeded not_written limit_reached no_randomness permission :
      Fault

-- Seconds.
abbrev pub web_session_lifetime : ℕ
web_session_lifetime = 30 * 24 * 3600

abbrev pub max_web_sessions : ℕ
max_web_sessions = 64

abbrev pub max_web_session_file_bytes : ℕ
max_web_session_file_bytes = 65536

abbrev pub max_web_access_tokens : ℕ
max_web_access_tokens = 512

-- `storedWebSession`; `expires` is 0 for a time that is not positive.
pub record Session : Type 0 where
  pub root_hash : Bytes
  pub expires : ℕ

abbrev pub Sessions : Type 0
Sessions = List (Bytes × Session)

-- The file as `loadLocked` finds it: not there; not to be read, or not JSON; of an invalid type,
-- mode or size; or with a version and the sessions.
pub data File : Type 0 where
  missing unreadable irregular : File
  content : ℕ → Option Sessions → File

pub record Store : Type 0 where
  pub has_path : Bool
  pub root_hash : Bytes
  pub loaded : Bool
  pub sessions : Sessions
  pub access : List (Bytes × Bytes)
  pub access_order : List Bytes
  pub file : File

-- What one call meets: two readings of the clock, two answers of `rand.Read` (`none` is an
-- error), how long the encoded file is, and whether it is written.
pub record World : Type 0 where
  pub now : ℕ
  pub later : ℕ
  pub random : Option Bytes
  pub random_token : Option Bytes
  pub encoded_bytes : ℕ
  pub written : Bool

-- A call's state behind it, and its result.
abbrev pub Called {ℓ} : Type ℓ → Type ℓ
Called A = Store × Outcome Fault A

-- The loop over the records.
unfoldable pub has_invalid_record : Sessions → Bool
has_invalid_record [] = false
has_invalid_record ((key, session) ∷ rest) =
    (not (length key == 64) || session.expires == 0 || not (length session.root_hash == 64))
    || has_invalid_record rest

-- The checks of `loadLocked` on what it has decoded.
unfoldable pub load_content : Store → ℕ → Option Sessions → Called (Unit {0})
load_content s version none = (s, err unsupported_format)
load_content s version (some sessions) =
    if not (version == 1) || ltb max_web_sessions (length sessions)
    then (s, err unsupported_format)
    else if has_invalid_record sessions
    then (s, err invalid_records)
    else (record s { sessions = sessions; loaded = true }, ok tt)

unfoldable pub load_file : Store → File → Called (Unit {0})
load_file s missing = (record s { loaded = true }, ok tt)
load_file s unreadable = (s, err not_readable)
load_file s irregular = (s, err invalid_file)
load_file s (content version sessions) = load_content s version sessions

unfoldable pub load_locked : Store → Called (Unit {0})
unfolding load_file load_content has_invalid_record
load_locked s =
    if s.loaded
    then (s, ok tt)
    else if not s.has_path
    then (s, err no_instance_directory)
    else load_file s s.file

unfoldable pub save_locked : World → Sessions → Store → Called (Unit {0})
save_locked w next s =
    if not s.has_path
    then (s, err unavailable)
    else if ltb max_web_session_file_bytes w.encoded_bytes
    then (s, err budget_exceeded)
    else if not w.written
    then (s, err not_written)
    else (record s { file = content 1 (some next); sessions = next }, ok tt)

-- The sessions that have not expired and that stand under the credential in use.
abbrev pub is_live : Bytes → ℕ → Session → Bool
is_live root_hash now session = ltb now session.expires && bytes_eq session.root_hash root_hash

unfoldable pub cleaned_locked : ℕ → Store → Sessions
cleaned_locked now s = keep (λ key session. is_live s.root_hash now session) s.sessions

abbrev pub token_prefix : Bytes
token_prefix = codes "kgws_"

-- Where the queue is full its oldest token is forgotten.
unfoldable pub evict : Store → List Bytes → Store
evict s [] = s
evict s (oldest ∷ order) =
    if leb max_web_access_tokens (length (oldest ∷ order))
    then record s { access = remove oldest s.access; access_order = order }
    else s

abbrev pub issue : Bytes → Bytes → Store → Store
issue digest hash s = record s {
  access = put digest hash s.access;
  access_order = s.access_order ++ digest ∷ [];
}

-- `if err := …; err != nil { return err }`.
abbrev pub then_call {ℓ κ} :
    {A : Type ℓ} {B : Type κ} → Called A → (A → Store → Called B) → Called B
then_call (s, err e) next = (s, err e)
then_call (s, ok a) next = next a s

abbrev pub renewed : World → Store → Session
renewed w s = record { root_hash = s.root_hash; expires = w.later + web_session_lifetime }

unfoldable pub session_allows : ℕ → Store → Option Session → Bool
session_allows now s none = false
session_allows now s (some session) =
    bytes_eq session.root_hash s.root_hash && ltb now session.expires

unfoldable pub token_allows : ℕ → Store → Option Bytes → Bool
unfolding session_allows
token_allows now s none = false
token_allows now s (some hash) = session_allows now s (find hash s.sessions)

unfoldable pub loaded_allows : ℕ → Bytes → Called (Unit {0}) → Store × Bool
unfolding token_allows
loaded_allows now digest (s, err e) = (s, false)
loaded_allows now digest (s, ok a) = (s, token_allows now s (find digest s.access))

module _ (crypto : Crypto) where
  open crypto use {sha256, hex, base64_encode, base64_decode}

  -- `newWebSecret` of the bytes that `rand.Read` gives.
  unfoldable pub new_web_secret : Option Bytes → Option Bytes
  new_web_secret none = none
  new_web_secret (some raw) = some (base64_encode raw)

  unfoldable pub decodes_to : Option Bytes → Bytes → Bool
  decodes_to none value = false
  decodes_to (some raw) value = length raw == 32 && bytes_eq (base64_encode raw) value

  unfoldable pub valid_web_secret : Bytes → Bool
  unfolding decodes_to
  valid_web_secret value = length value == 43 && decodes_to (base64_decode value) value

  unfoldable pub web_secret_hash : Bytes → Bytes
  web_secret_hash value = hex (sha256 value)

  -- `stringsHasWebAccessPrefix`.
  unfoldable pub has_web_access_prefix : Bytes → Bool
  unfolding valid_web_secret
  has_web_access_prefix token =
      length token == 48
      && has_prefix token token_prefix
      && valid_web_secret (cut token token_prefix)

  unfoldable pub token_of : Option Bytes → Bytes → Store → Called Bytes
  unfolding evict
  token_of none hash s = (s, err no_randomness)
  token_of (some secret) hash s =
      let token = token_prefix ++ secret in
      (issue (sha256 token) hash (evict s s.access_order), ok token)

  unfoldable pub access_token_locked : World → Bytes → Store → Called Bytes
  unfolding new_web_secret token_of
  access_token_locked w hash s = token_of (new_web_secret w.random_token) hash s

  unfoldable pub with_cookie : World → Sessions → Option Bytes → Store → Called (Bytes × Bytes)
  with_cookie w next none s = (s, err no_randomness)
  with_cookie w next (some cookie) s =
      let hash = web_secret_hash cookie in
      then_call (save_locked w (put hash (renewed w s) next) s)
        λ _ s'. then_call (access_token_locked w hash s') λ token s''. (s'', ok (cookie, token))

  unfoldable pub login : World → Store → Called (Bytes × Bytes)
  unfolding with_cookie
  login w s = then_call (load_locked s) λ _ s'.
      let next = cleaned_locked w.now s' in
      if leb max_web_sessions (length next)
      then (s', err limit_reached)
      else with_cookie w next (new_web_secret w.random) s'

  unfoldable pub with_record : World → Bytes → Option Session → Store → Called Bytes
  with_record w hash none s = (s, err permission)
  with_record w hash (some session) s =
      if not (is_live s.root_hash w.now session)
      then (s, err permission)
      else then_call (save_locked w (put hash (renewed w s) (cleaned_locked w.now s)) s)
          λ _ s'. access_token_locked w hash s'

  unfoldable pub restore : World → Bytes → Store → Called Bytes
  unfolding with_record
  restore w cookie s = then_call (load_locked s) λ _ s'.
      if not (valid_web_secret cookie)
      then (s', err permission)
      else with_record w (web_secret_hash cookie) (find (web_secret_hash cookie) s'.sessions) s'

  unfoldable pub logout : World → Bytes → Store → Called (Unit {0})
  logout w cookie s = then_call (load_locked s) λ _ s'.
      let hash = web_secret_hash cookie in
      then_call (save_locked w (remove hash (cleaned_locked w.now s')) s') λ _ s''.
        (record s'' { access = keep (λ digest key. not (bytes_eq key hash)) s''.access }, ok tt)

  -- `allows`: the state that it leaves (it may load the file) and its answer.
  unfoldable pub allows : ℕ → Bytes → Store → Store × Bool
  unfolding loaded_allows has_web_access_prefix
  allows now token s =
      if has_web_access_prefix token
      then loaded_allows now (sha256 token) (load_locked s)
      else (s, false)

-- `newWebSessionStore`: nothing is read yet. The root's hash is that of the credential.
unfoldable pub new_web_session_store : Bool → Bytes → File → Store
new_web_session_store has_path root_hash file = record {
  has_path = has_path;
  root_hash = root_hash;
  loaded = false;
  sessions = [];
  access = [];
  access_order = [];
  file = file;
}

-- What the daemon asks of the store.
pub data Call : Type 0 where
  log_in : World → Call
  restoring log_out : World → Bytes → Call
  asked : ℕ → Bytes → Call

-- Each call holds the store's lock until it returns.
unfoldable pub step : Crypto → Call → Store → Store
step crypto (log_in w) s = (login crypto w s).0
step crypto (restoring w cookie) s = (restore crypto w cookie s).0
step crypto (log_out w cookie) s = (logout crypto w cookie s).0
step crypto (asked now token) s = (allows crypto now token s).0

unfoldable pub run : Crypto → List Call → Store → Store
run crypto [] s = s
run crypto (c ∷ calls) s = run crypto calls (step crypto c s)
