-- ===== src/McpServer/OAuth/Entry.antt =====
-- Whom an access token lets in.
use kg_os.Common.{
  each_by, ℕ, ◌+◌, ◌<◌, Bytes, false, Option, none, some, bytes_eq, bytes_eq_sound, bytes_eq_refl,
  bytes_eq_iff, ◌≡◌, refl, ◌∙◌, arith, ◌&&◌,
}
use kg_os.Common.Table.{find, keep, put, find-put, find-keep, find-keep_present}
use kg_os.McpServer.OAuth.{
  Lib, Grant, Broker, World, tokens, oauth_scope, access_lifetime, is_fresh, prune_locked,
}
use kg_os.McpServer.OAuth.Forms.{Values}
use kg_os.McpServer.OAuth.Grants.{
  granted, new_grant, issue_token, is_no_token, principal, grant_allows,
}
use kg_os.McpServer.OAuth.Exchange.{
  field, Granted, Exchanged, by_code, by_refresh, issue_token-Exchanged,
}

-- A grant of this broker for its resource.
pub record IsOwn (o : Broker) (grant : Grant) : Type 0 where
  pub issuer_is : grant.issuer ≡ o.issuer
  pub resource_is : grant.resource ≡ o.resource
  pub scope_is : grant.scope ≡ oauth_scope

module _ (lib : Lib) where
  grant_allows-IsOwn :
      (now : ℕ) (o : Broker) (grant : Grant)
      → IsOwn o grant
      → now < grant.expires
      → grant_allows lib now o (some grant) ≡ some o.instance_digest
  unfolding grant_allows
  grant_allows-IsOwn now o grant own fresh = ground (
    arith,
    own.issuer_is,
    own.resource_is,
    own.scope_is,
    bytes_eq_iff grant.issuer o.issuer,
    bytes_eq_iff grant.resource o.resource,
    bytes_eq_iff grant.scope oauth_scope,
  )

  -- The access token of a grant that was just issued.
  Granted-principal :
      (w w' : World) (grant : Grant) (a r : Bytes) (o o' : Broker)
      → IsOwn o grant
      → Granted lib w grant a r o o'
      → is_no_token lib a ≡ false
      → w'.now < w.later + access_lifetime
      → w'.later < w.later + access_lifetime
      → (principal lib w' a o').1 ≡ some o.instance_digest
  unfolding principal prune_locked
  Granted-principal w w' grant a r o o' own made good now later =
      let given : Grant = record grant { expires = w.later + access_lifetime } in
      let key = lib.sha256 a in
      let held = (prune_locked w.later o).access in
      let there : find key (put key given held) ≡ some given =
        find-put key key given held ∙ rw (bytes_eq_refl key) refl in
      let found : find key (keep (λ k g. is_fresh w'.now g.expires) (put key given held))
          ≡ some given =
        find-keep_present _ key (put key given held) given there (ground arith) in
      rw made (
        each_by {A = Broker × Option Bytes} (λ m. m.1 ≡ some o.instance_digest) (is_no_token lib a)
          (λ bad. cc)
          (λ _. rw found (
            grant_allows-IsOwn w'.later
              (prune_locked w'.now (granted lib w grant a r (prune_locked w.later o))) given
              (record {
                issuer_is = own.issuer_is;
                resource_is = own.resource_is;
                scope_is = own.scope_is;
              })
              later)))

  Exchanged-principal :
      (w w' : World) (form : Values) (a r : Bytes) (o o' : Broker)
      → Exchanged lib w a r form o o'
      → is_no_token lib a ≡ false
      → w'.now < w.later + access_lifetime
      → w'.later < w.later + access_lifetime
      → (principal lib w' a o').1 ≡ some o.instance_digest
  unfolding new_grant
  Exchanged-principal w w' form a r o o' (by_code k named (pending, redeemed, made)) good now
        later =
      Granted-principal w w' (new_grant lib o (field form "client_id")) a r _ o'
        (record { issuer_is = refl; resource_is = refl; scope_is = refl }) made good now later
  Exchanged-principal w w' form a r o o' (by_refresh k named (previous, renewed, made)) good now
        later =
      Granted-principal w w' previous a r _ o'
        (record {
          issuer_is = renewed.issuer_is;
          resource_is = renewed.resource_is ∙ named.resource_is;
          scope_is = renewed.scope_is;
        })
        made good now later

  -- The access token that `issueToken` gives lets in, as the instance, where it has the form of
  -- a token, and where the clock has not come to an hour after it was issued.
  pub issue_token-principal :
      (w w' : World) (header : Bytes) (form : Option Values) (a r : Bytes) (o : Broker)
      → (issue_token lib w header form o).1 ≡ tokens a r
      → is_no_token lib a ≡ false
      → w'.now < w.later + access_lifetime
      → w'.later < w.later + access_lifetime
      → (principal lib w' a (issue_token lib w header form o).0).1 ≡ some o.instance_digest
  unfolding prune_locked
  issue_token-principal w w' header form a r o given good now later =
      let (plain, (f, is_form, exchanged)) = issue_token-Exchanged lib w a r header form o given in
      Exchanged-principal w w' f a r (prune_locked w.now o) _ exchanged good now later

  -- Why `principal` lets a token in, under a digest.
  pub record IsEntered (w : World) (token : Bytes) (o : Broker) (digest : Bytes) : Type 0 where
    pub digest_is : digest ≡ o.instance_digest
    pub has_form : is_no_token lib token ≡ false
    pub grant : Grant
    pub is_found : find (lib.sha256 token) (prune_locked w.now o).access ≡ some grant
    pub is_own : IsOwn o grant
    pub is_fresh_first : w.now < grant.expires
    pub is_fresh_later : w.later < grant.expires

  grant_allows-IsEntered :
      (w : World) (token : Bytes) (o : Broker) (digest : Bytes) (found : Option Grant)
      → is_no_token lib token ≡ false
      → find (lib.sha256 token) (prune_locked w.now o).access ≡ found
      → grant_allows lib w.later (prune_locked w.now o) found ≡ some digest
      → IsEntered w token o digest
  unfolding grant_allows prune_locked
  grant_allows-IsEntered w token o digest none good e given = cc
  grant_allows-IsEntered w token o digest (some g) good e given =
      each_by (λ m. m ≡ some digest → IsEntered w token o digest)
        (bytes_eq g.issuer o.issuer
          && bytes_eq g.resource o.resource
          && bytes_eq g.scope oauth_scope
          && is_fresh w.later g.expires)
        (λ all same. record {
          digest_is = cc same;
          has_form = good;
          grant = g;
          is_found = e;
          is_own = record {
            issuer_is = bytes_eq_sound _ _ (ground arith);
            resource_is = bytes_eq_sound _ _ (ground arith);
            scope_is = bytes_eq_sound _ _ (ground arith);
          };
          is_fresh_first = ground (arith, find-keep _ (lib.sha256 token) o.access g e);
          is_fresh_later = ground arith;
        })
        (λ _ same. cc same) given

  -- Whom `principal` lets in: the token is of the allowed form, and its hash is that of an access
  -- token whose grant is of this broker, for its resource and with the one scope, and that has not
  -- expired at either reading of the clock. The answer is the instance's digest.
  pub principal-IsEntered :
      (w : World) (token : Bytes) (o : Broker) (digest : Bytes)
      → (principal lib w token o).1 ≡ some digest
      → IsEntered w token o digest
  unfolding principal
  principal-IsEntered w token o digest given =
      each_by {A = Broker × Option Bytes} (λ m. m.1 ≡ some digest → IsEntered w token o digest)
        (is_no_token lib token) (λ _ same. cc same)
        (λ good. grant_allows-IsEntered w token o digest _ good refl) given
