-- ===== src/Tests/OAuthFlows.antt =====
-- The OAuth broker: internal/mcpserver/oauth.go and oauth_flow.go.
use kg_os.Common.{
  ℕ, Bytes, codes, ◌++◌, ◌∷◌, [], List, Option, some, none, false, if◌then◌else◌, length, leb,
  bytes_eq, has_prefix, cut, split_byte, ◌≡◌, ◌≢◌, refl, arith,
}
use kg_os.Common.Table.{find, put, keep, remove}
use kg_os.McpServer.OAuth.{
  Url, Lib, Broker, World, Handled, tokens, see_other, redirected, new_broker, new_oauth_broker,
  with_origin, prune_locked,
}
use kg_os.McpServer.OAuth.Forms.{
  Values, only_oauth_value, only_of, has_value, has_entries, is_secret, all_of, is_word,
  is_verifier, is_visible, is_client_path, is_client_folder, is_client_url, is_redirect_url,
  valid_oauth_client_id, valid_oauth_redirect, all_redirects, valid_web_bearer,
}
use kg_os.McpServer.OAuth.Grants.{
  issue_token, exchange_read, exchange_form, exchange_code, exchange_pending, code_matches,
  new_grant, issue_grant_locked, grant_pruned, grant_secrets, random_oauth_secret, principal,
  is_no_token,
}
use kg_os.McpServer.OAuth.Flow.{
  ClientDocument, Decision, begin_authorization, begin_start, begin_end, is_request,
  start_redirects, look_up, end_redirects, fetched_redirects, is_client_document, contains,
  cache_document, begin_known, add_ticket, finish_authorization, finish_input, decide, approve,
  authorization_redirect, redirect_to,
}
use kg_os.McpServer.OAuth.Sound.{IsSound}
use kg_os.McpServer.OAuth.Runs.{begins, decides, exchanges, enters, run, run-new_oauth_broker}
use kg_os.McpServer.OAuth.Exchange.{Exchanged, issue_token-Exchanged}
use kg_os.McpServer.OAuth.Once.{TriesCode, issue_token-once}
use kg_os.McpServer.OAuth.Entry.{issue_token-principal, principal-IsEntered, IsEntered}

url_of : Bytes → Option (Bytes × Bytes) → Url
url_of raw found = record {
  scheme = codes "https";
  host = host_of found;
  hostname = host_of found;
  has_user = false;
  opaque = [];
  path = path_of found;
  raw_query = [];
  fragment = [];
  text = raw;
}
  where
    host_of : Option (Bytes × Bytes) → Bytes
    host_of none = cut raw (codes "https://")
    host_of (some (host, rest)) = host

    path_of : Option (Bytes × Bytes) → Bytes
    path_of none = []
    path_of (some (host, rest)) = codes "/" ++ rest

-- URLs with a host and a path only; a hash that changes nothing; an encoding to at least 43 bytes.
abbrev sample_lib : Lib
sample_lib = record {
  parse_url = λ raw.
      if has_prefix raw (codes "https://")
      then some (url_of raw (split_byte b'/' (cut raw (codes "https://"))))
      else none;
  sha256 = λ s. s;
  base64_encode = λ s. if leb 43 (length s) then s else codes "-----------" ++ s;
}

pick : Bytes → List (Bytes × Bytes) → List Bytes
pick k [] = []
pick k ((j, v) ∷ fields) = if bytes_eq j k then v ∷ pick k fields else pick k fields

form_of : List (Bytes × Bytes) → Values
form_of fields k = pick k fields

abbrev client : Bytes
client = codes "https://chatgpt.com/oauth/client.json"

abbrev callback : Bytes
callback = codes "https://chatgpt.com/callback"

abbrev origin : Bytes
origin = codes "https://kg.example"

abbrev verifier : Bytes
verifier = codes "verifier_verifier_verifier_verifier_0123456"

abbrev secret : Bytes
secret = codes "01234567890123456789012345678901"

abbrev other_secret : Bytes
other_secret = codes "abcdefghijabcdefghijabcdefghijab"

abbrev world_at : ℕ → World
world_at now = record {
  now = now;
  later = now;
  random = some secret;
  random_refresh = some other_secret;
}

abbrev query : Values
query = form_of (
    (codes "client_id", client)
    ∷ (codes "redirect_uri", callback)
    ∷ (codes "state", codes "s")
    ∷ (codes "code_challenge", verifier)
    ∷ (codes "response_type", codes "code")
    ∷ (codes "code_challenge_method", codes "S256")
    ∷ (codes "resource", origin)
    ∷ [])

abbrev document : ClientDocument
document = record {
  client_id = client;
  redirect_uris = callback ∷ [];
  authentication_method = codes "none";
  authentication_methods = [];
}

abbrev issued : Bytes
issued = codes "-----------" ++ secret

abbrev approval : Decision
approval = record {
  origin = origin;
  authorization = codes "Bearer root";
  content_type = codes "application/json";
  content_length = 100;
  input = some (issued, codes "approve");
}

abbrev code_form : Values
code_form = form_of (
    (codes "grant_type", codes "authorization_code")
    ∷ (codes "client_id", client)
    ∷ (codes "resource", origin)
    ∷ (codes "code", issued)
    ∷ (codes "redirect_uri", callback)
    ∷ (codes "code_verifier", verifier)
    ∷ [])

abbrev refresh_form : Values
refresh_form = form_of (
    (codes "grant_type", codes "refresh_token")
    ∷ (codes "client_id", client)
    ∷ (codes "resource", origin)
    ∷ (codes "refresh_token", codes "-----------" ++ other_secret)
    ∷ [])

abbrev fresh : Broker
fresh = new_broker sample_lib origin (codes "root")

-- The three brokers of a flow: with a ticket, with a code, and with tokens.
asked : Handled
asked = begin_authorization sample_lib (world_at 100) query (some document) fresh

approved : Handled
approved = finish_authorization sample_lib (world_at 110) approval asked.0

exchanged : Handled
exchanged = issue_token sample_lib (world_at 120) [] (some code_form) approved.0

new_oauth_broker-run : new_oauth_broker sample_lib origin (codes "root") ≡ some fresh
unfolding new_oauth_broker with_origin bytes_eq has_prefix cut split_byte url_of
new_oauth_broker-run = refl

exchange_flow-run :
    (asked.1 ≡ see_other issued)
    × (approved.1
        ≡ redirected callback
            ((codes "code", issued) ∷ (codes "state", codes "s") ∷ (codes "iss", origin) ∷ []))
    × (exchanged.1 ≡ tokens issued (codes "-----------" ++ other_secret))
unfolding exchanged approved asked begin_authorization begin_start begin_end is_request
    valid_oauth_client_id valid_oauth_redirect is_client_url is_redirect_url is_client_path
    is_client_folder only_oauth_value only_of has_value has_entries is_secret is_visible is_verifier
    all_of is_word start_redirects look_up end_redirects fetched_redirects is_client_document
    contains all_redirects cache_document begin_known add_ticket finish_authorization
    valid_web_bearer finish_input decide approve authorization_redirect redirect_to issue_token
    exchange_read exchange_form exchange_code exchange_pending code_matches new_grant
    issue_grant_locked grant_pruned grant_secrets random_oauth_secret prune_locked find put keep
    remove bytes_eq has_prefix cut split_byte url_of form_of pick
exchange_flow-run = (refl, refl, refl)

exchange_gives : exchanged.1 ≡ tokens issued (codes "-----------" ++ other_secret)
exchange_gives = exchange_flow-run.2

run-new_oauth_broker_example : IsSound sample_lib origin origin (
    run sample_lib
      (begins (world_at 100) query (some document)
        ∷ decides (world_at 110) approval
        ∷ exchanges (world_at 120) [] (some code_form)
        ∷ enters (world_at 130) issued
        ∷ [])
      fresh)
run-new_oauth_broker_example =
    run-new_oauth_broker sample_lib origin (codes "root") _ fresh new_oauth_broker-run

abbrev header : Bytes
header = []

issue_token-Exchanged_example :
    (header ≡ [])
    × ((f : Values) × (some code_form ≡ some f)
        × Exchanged sample_lib
            (world_at 120)
            issued
            (codes "-----------" ++ other_secret)
            f
            (prune_locked 120 approved.0)
            exchanged.0)
unfolding exchanged
issue_token-Exchanged_example =
    issue_token-Exchanged sample_lib (world_at 120) issued (codes "-----------" ++ other_secret)
      header (some code_form) approved.0 exchange_gives

tries : TriesCode sample_lib code_form approved.0
unfolding approved asked begin_authorization begin_start begin_end is_request valid_oauth_client_id
    valid_oauth_redirect is_client_url is_redirect_url is_client_path is_client_folder
    only_oauth_value only_of has_value has_entries is_secret is_visible all_of is_word
    start_redirects look_up end_redirects fetched_redirects is_client_document contains
    all_redirects cache_document begin_known add_ticket finish_authorization valid_web_bearer
    finish_input decide approve random_oauth_secret prune_locked find put keep remove bytes_eq
    has_prefix cut split_byte url_of form_of pick
tries = record { is_allowed = refl; is_exchange = refl; has_code = refl }

issue_token-once_example :
    (issue_token sample_lib (world_at 121) [] (some code_form) exchanged.0).1 ≢ tokens issued issued
unfolding exchanged
issue_token-once_example =
    issue_token-once sample_lib (world_at 120) code_form approved.0 tries (world_at 121) []
      code_form issued issued tries.is_exchange refl

issued_is_token : is_no_token sample_lib issued ≡ false
unfolding is_verifier all_of is_word
issued_is_token = refl

let_in :
    (principal sample_lib (world_at 3719) issued exchanged.0).1 ≡ some approved.0.instance_digest
unfolding exchanged
let_in =
    issue_token-principal sample_lib (world_at 120) (world_at 3719) [] (some code_form) issued
      (codes "-----------" ++ other_secret) approved.0 exchange_gives issued_is_token (omega arith)
      (omega arith)

issue_token-principal_example :
    (principal sample_lib (world_at 200) issued exchanged.0).1 ≡ some approved.0.instance_digest
unfolding exchanged
issue_token-principal_example =
    issue_token-principal sample_lib (world_at 120) (world_at 200) [] (some code_form) issued
      (codes "-----------" ++ other_secret) approved.0 exchange_gives issued_is_token (omega arith)
      (omega arith)

principal-IsEntered_example :
    IsEntered sample_lib (world_at 3719) issued exchanged.0 approved.0.instance_digest
principal-IsEntered_example =
    principal-IsEntered sample_lib (world_at 3719) issued exchanged.0 approved.0.instance_digest
      let_in
