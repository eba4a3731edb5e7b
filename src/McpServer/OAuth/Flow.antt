-- ===== src/McpServer/OAuth/Flow.antt =====
-- The handlers of internal/mcpserver/oauth_flow.go up to a code: `beginAuthorization` with
-- `redirectsFor`, `authorizationDetails` and `finishAuthorization`.
use kg_os.Common.{
  ℕ, ◌+◌, ◌-◌, Bytes, codes, [], List, ◌∷◌, ◌++◌, Bool, false, not, ◌||◌, ◌&&◌, Option, none, some,
  if◌then◌else◌, ltb, leb, bytes_eq, length,
}
use kg_os.Common.Table.{find, put, remove}
use kg_os.McpServer.OAuth.{
  Url, Lib, Authorization, CachedDocument, Broker, World, Reply, failure, see_other, details,
  redirected, Handled, oauth_scope, ticket_lifetime, code_lifetime, client_cache_lifetime,
  max_pending_oauth, prune_locked, invalid_request, invalid_client, unavailable,
}
use kg_os.McpServer.OAuth.Forms.{
  Values, only_oauth_value, has_value, is_secret, is_visible, valid_oauth_client_id,
  valid_oauth_redirect, all_redirects, valid_web_bearer,
}
use kg_os.McpServer.OAuth.Grants.{random_oauth_secret}

-- The document of a client, where it was fetched with status 200, in its bounds, and decoded.
pub record ClientDocument : Type 0 where
  pub client_id : Bytes
  pub redirect_uris : List Bytes
  pub authentication_method : Bytes
  pub authentication_methods : List Bytes

unfoldable pub contains : List Bytes → Bytes → Bool
contains [] x = false
contains (y ∷ ys) x = bytes_eq y x || contains ys x

-- The errors of `redirectsFor`: the client's, or a refusal for now.
pub data Redirects : Type 0 where
  bad_client refused : Redirects
  known : List Bytes → Redirects

-- `finishAuthorization`'s request; `input` is the request ID and the decision, where the body was
-- read whole and is one JSON object of these.
pub record Decision : Type 0 where
  pub origin : Bytes
  pub authorization : Bytes
  pub content_type : Bytes
  pub content_length : ℕ
  pub input : Option (Bytes × Bytes)

module _ (lib : Lib) where
  unfoldable pub is_client_document : Bytes → ClientDocument → Bool
  unfolding contains
  is_client_document client_id d =
      bytes_eq d.client_id client_id
      && leb 1 (length d.redirect_uris)
      && leb (length d.redirect_uris) 128
      && (bytes_eq d.authentication_method (codes "none")
          || contains d.authentication_methods (codes "none"))
      && all_redirects lib d.redirect_uris

  -- Where there is room the document is kept.
  unfoldable pub cache_document : World → Bytes → List Bytes → Broker → Broker
  cache_document w client_id redirects o =
      if ltb (length o.documents) max_pending_oauth
      then record o {
        documents =
            put client_id
              (record { redirects = redirects; expires = w.later + client_cache_lifetime })
              o.documents;
      }
      else o

  -- Behind the fetch, with the deferred `metadataRequests--`.
  unfoldable pub fetched_redirects :
      World → Bytes → Option ClientDocument → Broker → Broker × Redirects
  unfolding is_client_document cache_document prune_locked
  fetched_redirects w client_id none o =
      (record o { metadata_requests = o.metadata_requests - 1 }, bad_client)
  fetched_redirects w client_id (some d) o =
      let kept = cache_document w client_id d.redirect_uris (prune_locked w.later o) in
      if is_client_document client_id d
      then (record kept { metadata_requests = kept.metadata_requests - 1 }, known d.redirect_uris)
      else (record o { metadata_requests = o.metadata_requests - 1 }, bad_client)

  unfoldable pub look_up : Bytes → Option CachedDocument → Broker → Broker × Option Redirects
  look_up client_id (some cached) o = (o, some (known cached.redirects))
  look_up client_id none o =
      if leb 8 o.metadata_requests || leb max_pending_oauth (length o.documents)
      then (o, some refused)
      else (record o { metadata_requests = o.metadata_requests + 1 }, none)

  -- `redirectsFor` before the fetch: what is known already, or `none` and a fetch is counted.
  unfoldable pub start_redirects : World → Bytes → Broker → Broker × Option Redirects
  unfolding look_up prune_locked
  start_redirects w client_id o =
      let pruned = prune_locked w.now o in
      if not (valid_oauth_client_id lib client_id)
      then (o, some bad_client)
      else look_up client_id (find client_id pruned.documents) pruned

  -- `redirectsFor` from there, where the fetch gives this document or fails.
  unfoldable pub end_redirects :
      World → Bytes → Option ClientDocument → Broker × Option Redirects → Broker × Redirects
  unfolding fetched_redirects
  end_redirects w client_id document (o, some redirects) = (o, redirects)
  end_redirects w client_id document (o, none) = fetched_redirects w client_id document o

  unfoldable pub add_ticket : World → Authorization → Option Bytes → Broker → Handled
  add_ticket w a none o = (o, unavailable 503)
  add_ticket w a (some ticket) o =
      let pruned = prune_locked w.later o in
      if leb max_pending_oauth (length pruned.tickets)
        || leb max_pending_oauth (length pruned.codes_out)
      then (pruned, unavailable 429)
      else (record pruned { tickets = put (lib.sha256 ticket) a pruned.tickets }, see_other ticket)

  unfoldable pub begin_known : World → Authorization → Broker × Redirects → Handled
  unfolding contains add_ticket prune_locked random_oauth_secret
  begin_known w a (o, bad_client) = (o, invalid_client)
  begin_known w a (o, refused) = (o, unavailable 429)
  begin_known w a (o, known redirects) =
      if contains redirects a.redirect_uri
      then add_ticket w a (random_oauth_secret lib w.random) o
      else (o, invalid_client)

  abbrev pub requested : World → Values → Broker → Authorization
  requested w query o = record {
    client_id = only_oauth_value query (codes "client_id");
    redirect_uri = only_oauth_value query (codes "redirect_uri");
    resource = o.resource;
    state = only_oauth_value query (codes "state");
    challenge = only_oauth_value query (codes "code_challenge");
    expires = w.later + ticket_lifetime;
  }

  unfoldable pub is_request : Values → Authorization → Broker → Bool
  is_request query a o =
      valid_oauth_client_id lib a.client_id
      && valid_oauth_redirect lib a.redirect_uri
      && is_visible a.state
      && is_secret a.challenge
      && bytes_eq (only_oauth_value query (codes "response_type")) (codes "code")
      && bytes_eq (only_oauth_value query (codes "code_challenge_method")) (codes "S256")
      && bytes_eq (only_oauth_value query (codes "resource")) o.resource
      && (not (has_value query (codes "scope"))
          || bytes_eq (only_oauth_value query (codes "scope")) oauth_scope)

  -- `beginAuthorization` up to the fetch, and from there; other calls may come between them.
  unfoldable pub begin_start : World → Values → Broker → Broker × Option Redirects
  unfolding is_request start_redirects
  begin_start w query o =
      let a = requested w query o in
      if is_request query a o then start_redirects w a.client_id o else (o, some bad_client)

  unfoldable pub begin_end :
      World → Values → Option ClientDocument → Broker × Option Redirects → Handled
  unfolding is_request begin_known end_redirects
  begin_end w query document (o, started) =
      let a = requested w query o in
      if is_request query a o
      then begin_known w a (end_redirects w a.client_id document (o, started))
      else (o, invalid_request)

  unfoldable pub begin_authorization : World → Values → Option ClientDocument → Broker → Handled
  unfolding begin_start begin_end
  begin_authorization w query document o = begin_end w query document (begin_start w query o)

  abbrev pub gone : Reply
  gone = failure 410 (codes "invalid_request")

  unfoldable pub details_of : Option Authorization → Reply
  details_of none = gone
  details_of (some pending) = details pending

  unfoldable pub authorization_details : World → Bytes → Values → Broker → Handled
  unfolding details_of prune_locked
  authorization_details w authorization query o =
      let request_id = only_oauth_value query (codes "request_id") in
      let pruned = prune_locked w.now o in
      if not (valid_web_bearer lib o authorization)
      then (o, failure 401 (codes "authentication_required"))
      else if not (is_secret request_id)
      then (o, invalid_request)
      else (pruned, details_of (find (lib.sha256 request_id) pruned.tickets))

  unfoldable pub redirect_to : Broker → Authorization → List (Bytes × Bytes) → Option Url → Reply
  redirect_to o a values none = invalid_request
  redirect_to o a values (some u) =
      redirected a.redirect_uri (values ++ (codes "state", a.state) ∷ (codes "iss", o.issuer) ∷ [])

  -- `authorizationRedirect`, with what its callers answer.
  unfoldable pub authorization_redirect : Broker → Authorization → List (Bytes × Bytes) → Reply
  unfolding redirect_to
  authorization_redirect o a values = redirect_to o a values (lib.parse_url a.redirect_uri)

  unfoldable pub approve : World → Bytes → Authorization → Option Bytes → Broker → Handled
  approve w key pending none o = (o, unavailable 503)
  approve w key pending (some code) o =
      let approved = record pending { expires = w.later + code_lifetime } in
      (
        record o {
          tickets = remove key o.tickets;
          codes_out = put (lib.sha256 code) approved o.codes_out;
        },
        authorization_redirect o approved ((codes "code", code) ∷ []),
      )

  -- Under the lock, with the ticket that was found.
  unfoldable pub decide : World → Bytes → Bytes → Option Authorization → Broker → Handled
  unfolding approve authorization_redirect random_oauth_secret
  decide w key decision none o = (o, gone)
  decide w key decision (some pending) o =
      if bytes_eq decision (codes "deny")
      then (
        record o { tickets = remove key o.tickets },
        authorization_redirect o pending ((codes "error", codes "access_denied") ∷ []),
      )
      else if leb max_pending_oauth (length o.codes_out)
      then (o, unavailable 503)
      else approve w key pending (random_oauth_secret lib w.random) o

  abbrev pub is_no_decision : Bytes → Bytes → Bool
  is_no_decision request_id decision =
      not (is_secret request_id)
      || (not (bytes_eq decision (codes "approve")) && not (bytes_eq decision (codes "deny")))

  unfoldable pub finish_input : World → Option (Bytes × Bytes) → Broker → Handled
  unfolding decide prune_locked
  finish_input w none o = (o, invalid_request)
  finish_input w (some (request_id, decision)) o =
      let key = lib.sha256 request_id in
      let pruned = prune_locked w.now o in
      if is_no_decision request_id decision
      then (o, invalid_request)
      else decide w key decision (find key pruned.tickets) pruned

  unfoldable pub finish_authorization : World → Decision → Broker → Handled
  unfolding finish_input
  finish_authorization w r o =
      if not (bytes_eq r.origin o.issuer)
      then (o, failure 403 (codes "invalid_request"))
      else if not (valid_web_bearer lib o r.authorization)
      then (o, failure 401 (codes "authentication_required"))
      else if not (bytes_eq r.content_type (codes "application/json")) || ltb 1024 r.content_length
      then (o, invalid_request)
      else finish_input w r.input o
