-- ===== src/McpServer/OAuth.antt =====
-- internal/mcpserver/oauth.go and oauth_flow.go: the broker that lets an MCP client in. A time is
-- in seconds.
pub mod Forms
pub mod Grants
pub mod Flow
pub mod Sound
pub mod Handlers
pub mod Runs
pub mod Exchange
pub mod Once
pub mod Entry
use kg_os.Common.{
  ℕ, ◌+◌, ◌*◌, Bytes, codes, [], List, ◌∷◌, ◌++◌, Bool, true, false, not, ◌||◌, ◌&&◌, Option, none,
  some, if◌then◌else◌, ltb, leb, ◌==◌, bytes_eq, has_prefix, cut, length,
}
use kg_os.Common.Table.{find, put, keep, remove}

-- What `url.Parse` gives; `text` is what `String` makes of it again.
pub record Url : Type 0 where
  pub scheme : Bytes
  pub host : Bytes
  pub hostname : Bytes
  pub has_user : Bool
  pub opaque : Bytes
  pub path : Bytes
  pub raw_query : Bytes
  pub fragment : Bytes
  pub text : Bytes

-- What the code calls of Go's libraries: `url.Parse`, `sha256.Sum256`, and
-- `base64.RawURLEncoding`.
pub record Lib : Type 0 where
  pub parse_url : Bytes → Option Url
  pub sha256 : Bytes → Bytes
  pub base64_encode : Bytes → Bytes

abbrev pub oauth_scope : Bytes
oauth_scope = codes "kgos:access"

abbrev pub ticket_lifetime : ℕ
ticket_lifetime = 300

abbrev pub code_lifetime : ℕ
code_lifetime = 60

abbrev pub access_lifetime : ℕ
access_lifetime = 3600

abbrev pub refresh_lifetime : ℕ
refresh_lifetime = 2592000

abbrev pub client_cache_lifetime : ℕ
client_cache_lifetime = 300

abbrev pub max_pending_oauth : ℕ
max_pending_oauth = 128

abbrev pub max_oauth_tokens : ℕ
max_oauth_tokens = 256

pub record Authorization : Type 0 where
  pub client_id : Bytes
  pub redirect_uri : Bytes
  pub resource : Bytes
  pub state : Bytes
  pub challenge : Bytes
  pub expires : ℕ

pub record Grant : Type 0 where
  pub client_id : Bytes
  pub issuer : Bytes
  pub resource : Bytes
  pub scope : Bytes
  pub expires : ℕ

pub record CachedDocument : Type 0 where
  pub redirects : List Bytes
  pub expires : ℕ

-- `oauthBroker`; its maps have the hashes of the secrets as keys.
pub record Broker : Type 0 where
  pub issuer : Bytes
  pub resource : Bytes
  pub instance_digest : Bytes
  pub tickets : List (Bytes × Authorization)
  pub codes_out : List (Bytes × Authorization)
  pub access : List (Bytes × Grant)
  pub refresh : List (Bytes × Grant)
  pub documents : List (Bytes × CachedDocument)
  pub metadata_requests : ℕ

-- What one call meets: two readings of the clock, of which the first is that of the first pruning,
-- and two answers of `rand.Read` (`none` is an error).
pub record World : Type 0 where
  pub now : ℕ
  pub later : ℕ
  pub random : Option Bytes
  pub random_refresh : Option Bytes

-- The one check that the maps of the broker share: `value.expires.After(now)`.
abbrev pub is_fresh : ℕ → ℕ → Bool
is_fresh now expires = ltb now expires

unfoldable pub prune_locked : ℕ → Broker → Broker
prune_locked now o = record o {
  tickets = keep (λ k a. is_fresh now a.expires) o.tickets;
  codes_out = keep (λ k a. is_fresh now a.expires) o.codes_out;
  access = keep (λ k g. is_fresh now g.expires) o.access;
  refresh = keep (λ k g. is_fresh now g.expires) o.refresh;
  documents = keep (λ k d. is_fresh now d.expires) o.documents;
}

-- A handler's answer: an error with its status and kind, a redirection to the Web with a ticket,
-- the details of a request, the client's redirect URI with the parameters that are set in it, or
-- an access and a refresh token.
pub data Reply : Type 0 where
  failure : ℕ → Bytes → Reply
  see_other : Bytes → Reply
  details : Authorization → Reply
  redirected : Bytes → List (Bytes × Bytes) → Reply
  tokens : Bytes → Bytes → Reply

abbrev pub Handled : Type 0
Handled = Broker × Reply

abbrev pub invalid_request : Reply
invalid_request = failure 400 (codes "invalid_request")

abbrev pub invalid_client : Reply
invalid_client = failure 400 (codes "invalid_client")

abbrev pub invalid_grant : Reply
invalid_grant = failure 400 (codes "invalid_grant")

abbrev pub unavailable : ℕ → Reply
unavailable status = failure status (codes "temporarily_unavailable")

abbrev is_loopback : Bytes → Bool
is_loopback name =
    bytes_eq name (codes "localhost")
    || bytes_eq name (codes "127.0.0.1")
    || bytes_eq name (codes "::1")

abbrev pub is_public_origin : Url → Bool
is_public_origin u =
    not (bytes_eq u.host [])
    && not u.has_user
    && bytes_eq u.raw_query []
    && bytes_eq u.fragment []
    && (bytes_eq u.path [] || bytes_eq u.path (codes "/"))
    && bytes_eq u.opaque []
    && (bytes_eq u.scheme (codes "https")
        || (bytes_eq u.scheme (codes "http") && is_loopback u.hostname))

abbrev pub new_broker : Lib → Bytes → Bytes → Broker
new_broker lib origin instance_token = record {
  issuer = origin;
  resource = origin;
  instance_digest = lib.sha256 instance_token;
  tickets = [];
  codes_out = [];
  access = [];
  refresh = [];
  documents = [];
  metadata_requests = 0;
}

abbrev pub origin_of : Url → Bytes
origin_of u = u.scheme ++ codes "://" ++ u.host

abbrev pub is_no_origin : Bytes → Url → Bool
is_no_origin issuer u =
    not (is_public_origin u)
    || (not (bytes_eq issuer (origin_of u)) && not (bytes_eq issuer (origin_of u ++ codes "/")))

unfoldable pub with_origin : Lib → Bytes → Bytes → Option Url → Option Broker
with_origin lib issuer instance_token none = none
with_origin lib issuer instance_token (some u) =
    if is_no_origin issuer u then none else some (new_broker lib (origin_of u) instance_token)

-- `newOAuthBroker`.
unfoldable pub new_oauth_broker : Lib → Bytes → Bytes → Option Broker
unfolding with_origin
new_oauth_broker lib issuer instance_token =
    with_origin lib issuer instance_token (lib.parse_url issuer)
