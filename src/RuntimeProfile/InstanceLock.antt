-- ===== src/RuntimeProfile/InstanceLock.antt =====
-- internal/runtimeprofile/lock.go: the file kgosd.lock, by which the owner of an instance keeps
-- others out and says where it listens.
-- The file is its bytes; `encoding/json`, which writes and reads them, is a parameter. A fault
-- stands for its message.
pub mod Inspection
pub mod Published
pub mod Ownership
use kg_os.Common.{
  ℕ, zero, suc, Bytes, codes, ◌∷◌, [], Bool, true, false, not, ◌||◌, ◌&&◌, ◌++◌, Option, none, some,
  Outcome, ok, err, if◌then◌else◌, bytes_eq,
}

-- Go's `int`.
pub data ℤ : Type 0 where
  pos negsuc : ℕ → ℤ

unfoldable pub is_positive : ℤ → Bool
is_positive (pos (suc n)) = true
is_positive _ = false

pub data Fault : Type 0 where
  locked no_active_daemon is_closed not_opened not_acquired not_truncated not_sought not_written
        not_synced not_encoded not_decoded empty_endpoint missing_fields invalid_endpoint
        not_loopback not_connected not_inspected invalid_locator trailing_data not_released
        not_closed not_running :
      Fault

pub record Locator : Type 0 where
  pub pid : ℤ
  pub endpoint : Bytes
  pub version : Bytes

-- What a decoder meets in the file: nothing, the start of a value, something else than a `Locator`,
-- or one, and whether more follows it.
pub data Content : Type 0 where
  empty partial garbage : Content
  object : Locator → Bool → Content

-- `json.Marshal` of a `Locator`, and what a `json.Decoder` that knows the fields of a `Locator`
-- meets in a text.
pub record Json : Type 0 where
  pub marshal : Locator → Option Bytes
  pub decode : Bytes → Content

-- The newline that `publish` writes behind the JSON text.
abbrev pub newline : Bytes
newline = 10 ∷ []

-- `InstanceLock` with its file, and whether the operating system's lock on the file is taken.
pub record Lock : Type 0 where
  pub closed : Bool
  pub content : Bytes
  pub held : Bool

abbrev pub Called {ℓ} : Type ℓ → Type ℓ
Called A = Lock × Outcome Fault A

-- What `url.Parse` gives.
pub record Url : Type 0 where
  pub scheme : Bytes
  pub host : Bytes
  pub hostname : Bytes
  pub has_user : Bool
  pub path : Bytes
  pub raw_query : Bytes
  pub fragment : Bytes

-- `url.Parse`, and whether `net.ParseIP` finds an address that is a loopback.
pub record Net : Type 0 where
  pub parse_url : Bytes → Option Url
  pub is_loopback : Bytes → Bool

-- How the operations of the file go in one call. A write that fails leaves some content.
pub record Disk : Type 0 where
  pub opens : Bool
  pub locks : Bool
  pub truncates : Bool
  pub seeks : Bool
  pub failed_write : Option Bytes
  pub syncs : Bool
  pub unlocks : Bool
  pub closes : Bool

abbrev pub truncated : Lock → Lock
truncated s = record s { content = [] }

unfoldable pub synced : Disk → Lock → Called (Unit {0})
synced d s = if d.syncs then (s, ok tt) else (s, err not_synced)

-- The write of a body that is not empty.
unfoldable pub written : Disk → Bytes → Option Bytes → Lock → Called (Unit {0})
unfolding synced
written d body (some left) s = (record s { content = left }, err not_written)
written d body none s = synced d (record s { content = body })

unfoldable pub with_body : Disk → Bytes → Lock → Called (Unit {0})
unfolding written
with_body d [] s = synced d s
with_body d (b ∷ body) s = written d (b ∷ body) d.failed_write s

-- `InstanceLock.replace`; `[]` stands for nil.
unfoldable pub replace : Disk → Bytes → Lock → Called (Unit {0})
unfolding with_body
replace d body s =
    if s.closed
    then (s, err is_closed)
    else if not d.truncates
    then (s, err not_truncated)
    else if not d.seeks
    then (truncated s, err not_sought)
    else with_body d body (truncated s)

unfoldable pub url_fault : Net → Option Url → Option Fault
url_fault net none = some invalid_endpoint
url_fault net (some u) =
    if not (bytes_eq u.scheme (codes "http"))
      || bytes_eq u.host []
      || u.has_user
      || (not (bytes_eq u.path []) && not (bytes_eq u.path (codes "/")))
      || not (bytes_eq u.raw_query [])
      || not (bytes_eq u.fragment [])
    then some invalid_endpoint
    else if not (net.is_loopback u.hostname)
    then some not_loopback
    else none

-- `validateDaemonEndpoint`; `none` is no error.
unfoldable pub validate_daemon_endpoint : Net → Bytes → Option Fault
unfolding url_fault
validate_daemon_endpoint net endpoint = url_fault net (net.parse_url endpoint)

unfoldable pub publish_encoded : Disk → Option Bytes → Lock → Called (Unit {0})
publish_encoded d none s = (s, err not_encoded)
publish_encoded d (some body) s = replace d (body ++ newline) s

-- `InstanceLock.publish`.
unfoldable pub publish : Json → Disk → Locator → Lock → Called (Unit {0})
unfolding publish_encoded
publish json d l s = publish_encoded d (json.marshal l) s

unfoldable pub publish_starting : Json → Disk → ℤ → Bytes → Lock → Called (Unit {0})
unfolding publish
publish_starting json d pid version s =
    if not (is_positive pid) || bytes_eq version []
    then (s, err missing_fields)
    else publish json d (record { pid = pid; endpoint = []; version = version }) s

unfoldable pub publish_valid : Json → Disk → Locator → Option Fault → Lock → Called (Unit {0})
unfolding publish
publish_valid json d l (some fault) s = (s, err fault)
publish_valid json d l none s = publish json d l s

unfoldable pub publish_running : Json → Net → Disk → ℤ → Bytes → Bytes → Lock → Called (Unit {0})
unfolding publish_valid
publish_running json net d pid endpoint version s =
    if not (is_positive pid) || bytes_eq endpoint [] || bytes_eq version []
    then (s, err missing_fields)
    else publish_valid json d (record { pid = pid; endpoint = endpoint; version = version })
        (validate_daemon_endpoint net endpoint) s

-- The first error of `Truncate`, `Seek` and `Sync`, and what the file then holds.
unfoldable pub clear_locator : Disk → Lock → Lock × Option Fault
clear_locator d s =
    if not d.truncates
    then (s, some not_truncated)
    else if not d.seeks
    then (truncated s, some not_sought)
    else if not d.syncs
    then (truncated s, some not_synced)
    else (truncated s, none)

unfoldable pub close_result : Disk → Option Fault → Outcome Fault (Unit {0})
close_result d (some fault) = err fault
close_result d none =
    if not d.unlocks then err not_released else if not d.closes then err not_closed else ok tt

-- `InstanceLock.Close`. The lock ends when it is released, and when its file is closed.
unfoldable pub close : Disk → Lock → Called (Unit {0})
unfolding clear_locator close_result
close d s =
    let (cleared, fault) = clear_locator d s in
    if s.closed then (s, ok tt) else (
      record cleared { closed = true; held = s.held && not (d.unlocks || d.closes) },
      close_result d fault,
    )

unfoldable pub acquired : Disk → Called (Unit {0}) → Called (Unit {0})
acquired d (s, ok a) = (s, ok a)
acquired d (s, err fault) = ((close d s).0, err fault)

-- `AcquireLock` on a file that has some content and that others may hold.
unfoldable pub acquire_lock : Disk → Bytes → Bool → Called (Unit {0})
unfolding acquired
acquire_lock d content held =
    let s : Lock = record { closed = false; content = content; held = held } in
    if not d.opens
    then (s, err not_opened)
    else if held
    then (s, err locked)
    else if not d.locks
    then (s, err not_acquired)
    else acquired d (replace d [] (record s { held = true }))

unfoldable pub endpoint_in : Content → Outcome Fault Bytes
endpoint_in (object l trailing) =
    if bytes_eq l.endpoint [] then err empty_endpoint else ok l.endpoint
endpoint_in content = err not_decoded

-- `InstanceLock.Endpoint`.
unfoldable pub endpoint : Json → Disk → Lock → Outcome Fault Bytes
unfolding endpoint_in
endpoint json d s =
    if s.closed
    then err is_closed
    else if not d.seeks
    then err not_sought
    else endpoint_in (json.decode s.content)
