-- ===== src/McpServer/OAuth/Exchange.antt =====
-- What a client must bring for its tokens, and what is left of it.
use kg_os.Common.{
  each, each_by, String, Bytes, codes, [], true, false, not, Option, none, some, leb, bytes_eq,
  bytes_eq_sound, length, ◌≡◌, refl, arith, ◌||◌,
}
use kg_os.Common.Table.{find, remove}
use kg_os.McpServer.OAuth.{
  Lib, Authorization, Grant, Broker, World, tokens, Handled, oauth_scope, max_oauth_tokens,
  prune_locked,
}
use kg_os.McpServer.OAuth.Forms.{
  Values, only_oauth_value, is_secret, is_verifier, has_value, valid_oauth_client_id,
}
use kg_os.McpServer.OAuth.Grants.{
  granted, grant_secrets, grant_pruned, issue_grant_locked, new_grant, code_matches,
  exchange_pending, exchange_code, grant_matches, exchange_previous, exchange_refresh, is_refused,
  is_unsupported, exchange_form, exchange_read, issue_token,
}

abbrev pub field : Values → String → Bytes
field form name = only_oauth_value form (codes name)

module _ (lib : Lib) where
  abbrev pub code_key : Values → Bytes
  code_key form = lib.sha256 (field form "code")

  abbrev pub refresh_key : Values → Bytes
  refresh_key form = lib.sha256 (field form "refresh_token")

  -- The authorization that a form redeems: that of its code, for the same client, resource and
  -- redirect URI, and the verifier's hash is the challenge.
  pub record IsRedeemed (form : Values) (o : Broker) (pending : Authorization) : Type 0 where
    pub is_found : find (code_key form) o.codes_out ≡ some pending
    pub client_is : pending.client_id ≡ field form "client_id"
    pub resource_is : pending.resource ≡ field form "resource"
    pub redirect_is : pending.redirect_uri ≡ field form "redirect_uri"
    pub has_verifier : is_verifier (field form "code_verifier") ≡ true
    pub challenge_is :
        lib.base64_encode (lib.sha256 (field form "code_verifier")) ≡ pending.challenge

  -- The grant that a form renews.
  pub record IsRenewed (form : Values) (o : Broker) (previous : Grant) : Type 0 where
    pub is_found : find (refresh_key form) o.refresh ≡ some previous
    pub client_is : previous.client_id ≡ field form "client_id"
    pub issuer_is : previous.issuer ≡ o.issuer
    pub resource_is : previous.resource ≡ field form "resource"
    pub scope_is : previous.scope ≡ oauth_scope

  -- A form that names a client and this resource, and has no secret of the client.
  pub record IsNamed (form : Values) (o : Broker) : Type 0 where
    pub has_client : valid_oauth_client_id lib (field form "client_id") ≡ true
    pub resource_is : field form "resource" ≡ o.resource
    pub no_secret : has_value form (codes "client_secret") ≡ false
    pub no_assertion : has_value form (codes "client_assertion") ≡ false

  -- The tokens `a` and `r` were issued with this grant to a broker that was pruned first.
  abbrev pub Granted : World → Grant → Bytes → Bytes → Broker → Broker → Type 0
  Granted w grant a r o o' = o' ≡ granted lib w grant a r (prune_locked w.later o)

  abbrev pub Gives : Bytes → Bytes → (Broker → Type 0) → Handled → Type 0
  Gives a r P m = m.1 ≡ tokens a r → P m.0

  module _ (w : World) (a r : Bytes) where
    grant_secrets-Granted :
        (grant : Grant) (access refresh : Option Bytes) (o : Broker)
        → Gives a r
            (λ o'. o' ≡ granted lib w grant a r o)
            (grant_secrets lib w grant access refresh o)
    unfolding grant_secrets
    grant_secrets-Granted grant none refresh o e = cc
    grant_secrets-Granted grant (some x) none o e = cc
    grant_secrets-Granted grant (some x) (some y) o e =
        let x_is : x ≡ a = cc in let y_is : y ≡ r = cc in rw (x_is, y_is) refl

    issue_grant_locked-Granted :
        (grant : Grant) (o : Broker)
        → Gives a r (Granted w grant a r o) (issue_grant_locked lib w grant o)
    unfolding issue_grant_locked grant_pruned
    issue_grant_locked-Granted grant o =
        let pruned = prune_locked w.later o in
        each (Gives a r (Granted w grant a r o))
          (leb max_oauth_tokens (length pruned.access)
            || leb max_oauth_tokens (length pruned.refresh))
          (λ e. cc) (grant_secrets-Granted grant _ _ pruned)

    code_matches-IsRedeemed :
        (form : Values) (o : Broker) (pending : Authorization)
        → find (code_key form) o.codes_out ≡ some pending
        → code_matches lib pending
            (field form "client_id")
            (field form "resource")
            (field form "redirect_uri")
            (field form "code_verifier")
          ≡ true
        → IsRedeemed form o pending
    unfolding code_matches
    code_matches-IsRedeemed form o pending found e = record {
      is_found = found;
      client_is = bytes_eq_sound _ _ (ground arith);
      resource_is = bytes_eq_sound _ _ (ground arith);
      redirect_is = bytes_eq_sound _ _ (ground arith);
      has_verifier = ground arith;
      challenge_is = bytes_eq_sound _ _ (ground arith);
    }

    grant_matches-IsRenewed :
        (form : Values) (o : Broker) (previous : Grant)
        → find (refresh_key form) o.refresh ≡ some previous
        → grant_matches lib o previous (field form "client_id") (field form "resource") ≡ true
        → IsRenewed form o previous
    unfolding grant_matches
    grant_matches-IsRenewed form o previous found e = record {
      is_found = found;
      client_is = bytes_eq_sound _ _ (ground arith);
      issuer_is = bytes_eq_sound _ _ (ground arith);
      resource_is = bytes_eq_sound _ _ (ground arith);
      scope_is = bytes_eq_sound _ _ (ground arith);
    }

    allowed-IsNamed :
        (form : Values) (o : Broker)
        → is_refused lib form (field form "client_id") (field form "resource") o ≡ false
        → IsNamed form (prune_locked w.now o)
    unfolding prune_locked
    allowed-IsNamed form o allowed = record {
      has_client = ground arith;
      resource_is = bytes_eq_sound _ _ (ground arith);
      no_secret = ground arith;
      no_assertion = ground arith;
    }

    -- What a form gives where its code is exchanged.
    abbrev pub Redeems : Values → Broker → Broker → Type 0
    Redeems form o o' =
        (pending : Authorization) × IsRedeemed form o pending
        × Granted w (new_grant lib o (field form "client_id")) a r
            (record o { codes_out = remove (code_key form) o.codes_out }) o'

    abbrev pub Renews : Values → Broker → Broker → Type 0
    Renews form o o' =
        (previous : Grant) × IsRenewed form o previous
        × Granted w previous a r (record o { refresh = remove (refresh_key form) o.refresh }) o'

    exchange_pending-Redeems :
        (form : Values) (o : Broker) (found : Option Authorization)
        → find (code_key form) o.codes_out ≡ found
        → Gives a r (Redeems form o) (
            exchange_pending lib w form
              (field form "client_id")
              (field form "resource")
              found
              (record o { codes_out = remove (code_key form) o.codes_out }))
    unfolding exchange_pending new_grant
    exchange_pending-Redeems form o none e = λ g. cc
    exchange_pending-Redeems form o (some pending) e =
        let used : Broker = record o { codes_out = remove (code_key form) o.codes_out } in
        each_by (Gives a r (Redeems form o))
          (code_matches lib pending (field form "client_id") (field form "resource")
            (field form "redirect_uri") (field form "code_verifier"))
          (λ matched given. (
            pending,
            code_matches-IsRedeemed form o pending e matched,
            issue_grant_locked-Granted (new_grant lib used (field form "client_id")) used given,
          ))
          (λ _ given. cc)

    exchange_code-Redeems :
        (form : Values) (o : Broker)
        → Gives a r
            (Redeems form o)
            (exchange_code lib w form (field form "client_id") (field form "resource") o)
    unfolding exchange_code
    exchange_code-Redeems form o =
        each (Gives a r (Redeems form o)) (not (is_secret (field form "code"))) (λ given. cc)
          (exchange_pending-Redeems form o _ refl)

    exchange_previous-Renews :
        (form : Values) (o : Broker) (found : Option Grant)
        → find (refresh_key form) o.refresh ≡ found
        → Gives a r (Renews form o) (
            exchange_previous lib w
              (field form "client_id")
              (field form "resource")
              found
              (record o { refresh = remove (refresh_key form) o.refresh }))
    unfolding exchange_previous
    exchange_previous-Renews form o none e = λ g. cc
    exchange_previous-Renews form o (some previous) e =
        let used : Broker = record o { refresh = remove (refresh_key form) o.refresh } in
        each_by (Gives a r (Renews form o))
          (grant_matches lib used previous (field form "client_id") (field form "resource"))
          (λ matched given. (
            previous,
            grant_matches-IsRenewed form o previous e matched,
            issue_grant_locked-Granted previous used given,
          ))
          (λ _ given. cc)

    exchange_refresh-Renews :
        (form : Values) (o : Broker)
        → Gives a r
            (Renews form o)
            (exchange_refresh lib w form (field form "client_id") (field form "resource") o)
    unfolding exchange_refresh
    exchange_refresh-Renews form o =
        each (Gives a r (Renews form o)) (not (is_secret (field form "refresh_token")))
          (λ given. cc) (exchange_previous-Renews form o _ refl)

    -- What a form must hold, and what it gives.
    pub data Exchanged (form : Values) (o o' : Broker) : Type 0 where
      by_code :
          field form "grant_type" ≡ codes "authorization_code"
          → IsNamed form o
          → Redeems form o o'
          → Exchanged form o o'
      by_refresh :
          field form "grant_type" ≡ codes "refresh_token"
          → IsNamed form o
          → Renews form o o'
          → Exchanged form o o'

    exchange_form-Exchanged :
        (form : Values) (o : Broker)
        → Gives a r (Exchanged form (prune_locked w.now o)) (exchange_form lib w form o)
    unfolding exchange_form
    exchange_form-Exchanged form o =
        let pruned = prune_locked w.now o in
        let P = Gives a r (Exchanged form pruned) in
        let kind = field form "grant_type" in
        each_by P (is_refused lib form (field form "client_id") (field form "resource") o)
          (λ _ given. cc)
          λ allowed.
            each_by P (is_unsupported lib kind) (λ _ given. cc)
              λ supported.
                each_by P (bytes_eq kind (codes "authorization_code"))
                  (λ same given.
                    by_code (bytes_eq_sound _ _ same) (allowed-IsNamed form o allowed)
                      (exchange_code-Redeems form pruned given))
                  (λ other given.
                    by_refresh (bytes_eq_sound _ _ (ground arith)) (allowed-IsNamed form o allowed)
                      (exchange_refresh-Renews form pruned given))

    exchange_read-Exchanged :
        (form : Option Values) (o : Broker)
        → Gives a r
            (λ o'. (f : Values) × (form ≡ some f) × Exchanged f (prune_locked w.now o) o')
            (exchange_read lib w form o)
    unfolding exchange_read
    exchange_read-Exchanged none o = λ given. cc
    exchange_read-Exchanged (some form) o =
        λ given. (form, refl, exchange_form-Exchanged form o given)

    -- Where `issueToken` gives tokens, the request has no `Authorization` header, and its form names
    -- a client of the allowed form, this resource and no client secret. The form has the code of an
    -- authorization that has not expired, for the same client, resource and redirect URI, and a
    -- verifier whose hash is the challenge; or it has a refresh token that has not expired, of a
    -- grant to the same client. The code or refresh token is taken out, and then the two tokens are
    -- put into the pruned broker with that client's grant, and nothing else is changed.
    pub issue_token-Exchanged :
        (header : Bytes) (form : Option Values) (o : Broker)
        → (issue_token lib w header form o).1 ≡ tokens a r
        → (header ≡ [])
          × ((f : Values) × (form ≡ some f)
              × Exchanged f (prune_locked w.now o) (issue_token lib w header form o).0)
    unfolding issue_token
    issue_token-Exchanged header form o =
        let P : Handled → Type 0 = λ m.
          m.1 ≡ tokens a r
          → (header ≡ [])
            × ((f : Values) × (form ≡ some f) × Exchanged f (prune_locked w.now o) m.0) in
        each_by P (not (bytes_eq header [])) (λ _ given. cc)
          (λ plain given. (bytes_eq_sound _ _ (ground arith), exchange_read-Exchanged form o given))
