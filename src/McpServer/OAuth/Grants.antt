-- ===== src/McpServer/OAuth/Grants.antt =====
-- `issueToken` and `principal` of internal/mcpserver: what a code and a refresh token buy, and whom
-- an access token lets in.
use kg_os.Common.{
  ℕ, ◌+◌, Bytes, codes, [], Bool, not, ◌||◌, ◌&&◌, Option, none, some, if◌then◌else◌, ltb, leb,
  bytes_eq, length,
}
use kg_os.Common.Table.{find, put, remove}
use kg_os.McpServer.OAuth.{
  Lib, Authorization, Grant, Broker, World, failure, tokens, Handled, oauth_scope, access_lifetime,
  refresh_lifetime, max_oauth_tokens, is_fresh, prune_locked, invalid_client, invalid_grant,
  unavailable,
}
use kg_os.McpServer.OAuth.Forms.{
  Values, only_oauth_value, has_value, is_secret, is_verifier, valid_oauth_client_id,
}

module _ (lib : Lib) where
  -- `randomOAuthSecret` of the bytes that `rand.Read` gives.
  unfoldable pub random_oauth_secret : Option Bytes → Option Bytes
  random_oauth_secret none = none
  random_oauth_secret (some raw) = some (lib.base64_encode raw)

  abbrev pub granted : World → Grant → Bytes → Bytes → Broker → Broker
  granted w grant access refresh o = record o {
    access =
        put (lib.sha256 access) (record grant { expires = w.later + access_lifetime }) o.access;
    refresh =
        put (lib.sha256 refresh) (record grant { expires = w.later + refresh_lifetime }) o.refresh;
  }

  unfoldable pub grant_secrets : World → Grant → Option Bytes → Option Bytes → Broker → Handled
  grant_secrets w grant (some access) (some refresh) o =
      (granted w grant access refresh o, tokens access refresh)
  grant_secrets w grant access refresh o = (o, unavailable 503)

  unfoldable pub grant_pruned : World → Grant → Broker → Handled
  unfolding grant_secrets random_oauth_secret
  grant_pruned w grant o =
      if leb max_oauth_tokens (length o.access) || leb max_oauth_tokens (length o.refresh)
      then (o, unavailable 503)
      else grant_secrets w grant (random_oauth_secret w.random)
          (random_oauth_secret w.random_refresh) o

  -- `issueGrantLocked`, with what `issueToken` answers to its result.
  unfoldable pub issue_grant_locked : World → Grant → Broker → Handled
  unfolding grant_pruned prune_locked
  issue_grant_locked w grant o = grant_pruned w grant (prune_locked w.later o)

  unfoldable pub new_grant : Broker → Bytes → Grant
  new_grant o client_id = record {
    client_id = client_id;
    issuer = o.issuer;
    resource = o.resource;
    scope = oauth_scope;
    expires = 0;
  }

  unfoldable pub code_matches : Authorization → Bytes → Bytes → Bytes → Bytes → Bool
  code_matches pending client_id resource redirect verifier =
      bytes_eq pending.client_id client_id
      && bytes_eq pending.resource resource
      && bytes_eq pending.redirect_uri redirect
      && is_verifier verifier
      && bytes_eq (lib.base64_encode (lib.sha256 verifier)) pending.challenge

  -- What is done with the authorization of a code, which is out of the map by then.
  unfoldable pub exchange_pending :
      World → Values → Bytes → Bytes → Option Authorization → Broker → Handled
  unfolding code_matches issue_grant_locked new_grant
  exchange_pending w form client_id resource none o = (o, invalid_grant)
  exchange_pending w form client_id resource (some pending) o =
      if code_matches pending client_id resource (only_oauth_value form (codes "redirect_uri"))
        (only_oauth_value form (codes "code_verifier"))
      then issue_grant_locked w (new_grant o client_id) o
      else (o, invalid_grant)

  unfoldable pub exchange_code : World → Values → Bytes → Bytes → Broker → Handled
  unfolding exchange_pending
  exchange_code w form client_id resource o =
      let code = only_oauth_value form (codes "code") in
      let key = lib.sha256 code in
      if not (is_secret code)
      then (o, invalid_grant)
      else exchange_pending w form client_id resource (find key o.codes_out)
          (record o { codes_out = remove key o.codes_out })

  unfoldable pub grant_matches : Broker → Grant → Bytes → Bytes → Bool
  grant_matches o previous client_id resource =
      bytes_eq previous.client_id client_id
      && bytes_eq previous.issuer o.issuer
      && bytes_eq previous.resource resource
      && bytes_eq previous.scope oauth_scope

  unfoldable pub exchange_previous : World → Bytes → Bytes → Option Grant → Broker → Handled
  unfolding grant_matches issue_grant_locked
  exchange_previous w client_id resource none o = (o, invalid_grant)
  exchange_previous w client_id resource (some previous) o =
      if grant_matches o previous client_id resource
      then issue_grant_locked w previous o
      else (o, invalid_grant)

  unfoldable pub exchange_refresh : World → Values → Bytes → Bytes → Broker → Handled
  unfolding exchange_previous
  exchange_refresh w form client_id resource o =
      let token = only_oauth_value form (codes "refresh_token") in
      let key = lib.sha256 token in
      if not (is_secret token)
      then (o, invalid_grant)
      else exchange_previous w client_id resource (find key o.refresh)
          (record o { refresh = remove key o.refresh })

  abbrev pub is_refused : Values → Bytes → Bytes → Broker → Bool
  is_refused form client_id resource o =
      not (valid_oauth_client_id lib client_id)
      || not (bytes_eq resource o.resource)
      || has_value form (codes "client_secret")
      || has_value form (codes "client_assertion")

  abbrev pub is_unsupported : Bytes → Bool
  is_unsupported grant_type =
      not (bytes_eq grant_type (codes "authorization_code"))
      && not (bytes_eq grant_type (codes "refresh_token"))

  unfoldable pub exchange_form : World → Values → Broker → Handled
  unfolding exchange_code exchange_refresh prune_locked
  exchange_form w form o =
      let grant_type = only_oauth_value form (codes "grant_type") in
      let client_id = only_oauth_value form (codes "client_id") in
      let resource = only_oauth_value form (codes "resource") in
      if is_refused form client_id resource o
      then (o, invalid_client)
      else if is_unsupported grant_type
      then (o, failure 400 (codes "unsupported_grant_type"))
      else if bytes_eq grant_type (codes "authorization_code")
      then exchange_code w form client_id resource (prune_locked w.now o)
      else exchange_refresh w form client_id resource (prune_locked w.now o)

  unfoldable pub exchange_read : World → Option Values → Broker → Handled
  unfolding exchange_form
  exchange_read w none o = (o, failure 400 (codes "invalid_request"))
  exchange_read w (some form) o = exchange_form w form o

  -- `issueToken` of the `Authorization` header and the form that `readOAuthForm` finds.
  unfoldable pub issue_token : World → Bytes → Option Values → Broker → Handled
  unfolding exchange_read
  issue_token w authorization form o =
      if not (bytes_eq authorization [])
      then (o, failure 401 (codes "invalid_client"))
      else exchange_read w form o

  unfoldable pub grant_allows : ℕ → Broker → Option Grant → Option Bytes
  grant_allows now o none = none
  grant_allows now o (some grant) =
      if bytes_eq grant.issuer o.issuer
        && bytes_eq grant.resource o.resource
        && bytes_eq grant.scope oauth_scope
        && is_fresh now grant.expires
      then some o.instance_digest
      else none

  abbrev pub is_no_token : Bytes → Bool
  is_no_token token = ltb (length token) 43 || ltb 512 (length token) || not (is_verifier token)

  -- `principal`: the digest is what it prints.
  unfoldable pub principal : World → Bytes → Broker → Broker × Option Bytes
  unfolding grant_allows prune_locked
  principal w token o =
      let pruned = prune_locked w.now o in
      if is_no_token token
      then (o, none)
      else (pruned, grant_allows w.later pruned (find (lib.sha256 token) pruned.access))
