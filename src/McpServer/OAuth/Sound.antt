-- ===== src/McpServer/OAuth/Sound.antt =====
-- What holds of the broker, and that exchanging codes and tokens keeps it.
use kg_os.Common.{
  each, each_by, ℕ, ◌≤◌, Bytes, codes, [], List, Bool, true, false, not, ◌||◌, Option, none, some,
  leb, bytes_eq, length, ◌≡◌, refl, arith,
}
use kg_os.Common.Table.{
  find, put, keep, remove, length-put-le, length-keep-le, AllEntries, AllEntries-keep,
  AllEntries-put, AllEntries-find,
}
use kg_os.McpServer.OAuth.{
  Lib, Authorization, Grant, CachedDocument, Broker, World, oauth_scope, max_pending_oauth,
  max_oauth_tokens, is_fresh, prune_locked,
}
use kg_os.McpServer.OAuth.Forms.{
  Values, only_oauth_value, is_secret, valid_oauth_client_id, valid_oauth_redirect,
}
use kg_os.McpServer.OAuth.Grants.{
  random_oauth_secret, grant_secrets, grant_pruned, issue_grant_locked, new_grant, code_matches,
  exchange_pending, exchange_code, grant_matches, exchange_previous, exchange_refresh, is_refused,
  is_unsupported, is_no_token, exchange_form, exchange_read, issue_token, principal,
}

-- A request for this resource, by a client and to a redirect URI of the allowed form.
pub record IsAsked (lib : Lib) (resource : Bytes) (a : Authorization) : Type 0 where
  pub resource_is : a.resource ≡ resource
  pub has_client : valid_oauth_client_id lib a.client_id ≡ true
  pub has_redirect : valid_oauth_redirect lib a.redirect_uri ≡ true

-- A grant of this issuer for this resource, with the one scope.
pub record IsOurs (issuer resource : Bytes) (g : Grant) : Type 0 where
  pub issuer_is : g.issuer ≡ issuer
  pub resource_is : g.resource ≡ resource
  pub scope_is : g.scope ≡ oauth_scope

-- A map with at most so many entries, each with a property.
pub record Holds {ℓ} {V : Type ℓ} (P : V → Type 0) (limit : ℕ) (m : List (Bytes × V)) : Type ℓ where
  pub each_has : AllEntries (λ k v. P v) m
  pub at_most : length m ≤ limit

pub record IsSound (lib : Lib) (issuer resource : Bytes) (o : Broker) : Type 0 where
  pub issuer_is : o.issuer ≡ issuer
  pub resource_is : o.resource ≡ resource
  pub tickets_hold : Holds (IsAsked lib resource) max_pending_oauth o.tickets
  pub codes_hold : Holds (IsAsked lib resource) max_pending_oauth o.codes_out
  pub access_hold : Holds (IsOurs issuer resource) max_oauth_tokens o.access
  pub refresh_hold : Holds (IsOurs issuer resource) max_oauth_tokens o.refresh
  pub few_documents : length o.documents ≤ max_pending_oauth
  pub few_requests : o.metadata_requests ≤ 8

module _ {V : Type 0} (P : V → Type 0) (limit : ℕ) where
  pub Holds-keep :
      (p : Bytes → V → Bool) (m : List (Bytes × V)) → Holds P limit m → Holds P limit (keep p m)
  Holds-keep p m h = record {
    each_has = AllEntries-keep (λ k v. P v) p m h.each_has;
    at_most = omega (arith, length-keep-le p m, h.at_most);
  }

  pub Holds-remove :
      (k : Bytes) (m : List (Bytes × V)) → Holds P limit m → Holds P limit (remove k m)
  unfolding remove
  Holds-remove k m h = Holds-keep _ m h

  -- Where there was room.
  pub Holds-put :
      (k : Bytes) (v : V) (m : List (Bytes × V))
      → leb limit (length m) ≡ false
      → P v
      → Holds P limit m
      → Holds P limit (put k v m)
  Holds-put k v m room pv h = record {
    each_has = AllEntries-put (λ k v. P v) k v m pv h.each_has;
    at_most = ground (arith, length-put-le k v m);
  }

module _ (lib : Lib) (issuer resource : Bytes) where
  abbrev pub Sound : Broker → Type 0
  Sound = IsSound lib issuer resource

  abbrev pub SoundCall {ℓ} : {A : Type ℓ} → Broker × A → Type 0
  SoundCall m = Sound m.0

  pub prune_locked-IsSound : (now : ℕ) (o : Broker) → Sound o → Sound (prune_locked now o)
  unfolding prune_locked
  prune_locked-IsSound now o h = record {
    issuer_is = h.issuer_is;
    resource_is = h.resource_is;
    tickets_hold = Holds-keep _ _ _ o.tickets h.tickets_hold;
    codes_hold = Holds-keep _ _ _ o.codes_out h.codes_hold;
    access_hold = Holds-keep _ _ _ o.access h.access_hold;
    refresh_hold = Holds-keep _ _ _ o.refresh h.refresh_hold;
    few_documents =
        omega (arith, length-keep-le (λ k d. is_fresh now d.expires) o.documents, h.few_documents);
    few_requests = h.few_requests;
  }

  pub with_pending-IsSound :
      (o : Broker) (ts cs : List (Bytes × Authorization))
      → Sound o
      → Holds (IsAsked lib resource) max_pending_oauth ts
      → Holds (IsAsked lib resource) max_pending_oauth cs
      → Sound (record o { tickets = ts; codes_out = cs })
  with_pending-IsSound o ts cs h kt kc = record {
    issuer_is = h.issuer_is;
    resource_is = h.resource_is;
    tickets_hold = kt;
    codes_hold = kc;
    access_hold = h.access_hold;
    refresh_hold = h.refresh_hold;
    few_documents = h.few_documents;
    few_requests = h.few_requests;
  }

  with_grants-IsSound :
      (o : Broker) (gs rs : List (Bytes × Grant))
      → Sound o
      → Holds (IsOurs issuer resource) max_oauth_tokens gs
      → Holds (IsOurs issuer resource) max_oauth_tokens rs
      → Sound (record o { access = gs; refresh = rs })
  with_grants-IsSound o gs rs h ka kr = record {
    issuer_is = h.issuer_is;
    resource_is = h.resource_is;
    tickets_hold = h.tickets_hold;
    codes_hold = h.codes_hold;
    access_hold = ka;
    refresh_hold = kr;
    few_documents = h.few_documents;
    few_requests = h.few_requests;
  }

  pub with_documents-IsSound :
      (o : Broker) (ds : List (Bytes × CachedDocument)) (n : ℕ)
      → Sound o
      → length ds ≤ max_pending_oauth
      → n ≤ 8
      → Sound (record o { documents = ds; metadata_requests = n })
  with_documents-IsSound o ds n h k l = record {
    issuer_is = h.issuer_is;
    resource_is = h.resource_is;
    tickets_hold = h.tickets_hold;
    codes_hold = h.codes_hold;
    access_hold = h.access_hold;
    refresh_hold = h.refresh_hold;
    few_documents = k;
    few_requests = l;
  }

  grant_pruned-IsSound :
      (w : World) (grant : Grant) (o : Broker)
      → IsOurs issuer resource grant
      → Sound o
      → SoundCall (grant_pruned lib w grant o)
  unfolding grant_pruned grant_secrets
  grant_pruned-IsSound w grant o g h =
      each_by SoundCall
        (leb max_oauth_tokens (length o.access) || leb max_oauth_tokens (length o.refresh)) (λ _. h)
        (λ room.
          at room (random_oauth_secret lib w.random) (random_oauth_secret lib w.random_refresh))
    where
      ours : (e : ℕ) → IsOurs issuer resource (record grant { expires = e })
      ours e = record {
        issuer_is = g.issuer_is;
        resource_is = g.resource_is;
        scope_is = g.scope_is;
      }

      at :
          leb max_oauth_tokens (length o.access) || leb max_oauth_tokens (length o.refresh) ≡ false
          → (a r : Option Bytes) → SoundCall (grant_secrets lib w grant a r o)
      at room none r = h
      at room (some a) none = h
      at room (some a) (some r) =
          with_grants-IsSound o _ _ h
            (Holds-put _ _ _ _ o.access (ground arith) (ours _) h.access_hold)
            (Holds-put _ _ _ _ o.refresh (ground arith) (ours _) h.refresh_hold)

  issue_grant_locked-IsSound :
      (w : World) (grant : Grant) (o : Broker)
      → IsOurs issuer resource grant
      → Sound o
      → SoundCall (issue_grant_locked lib w grant o)
  unfolding issue_grant_locked
  issue_grant_locked-IsSound w grant o g h =
      grant_pruned-IsSound w grant (prune_locked w.later o) g (prune_locked-IsSound w.later o h)

  exchange_code-IsSound :
      (w : World) (form : Values) (client_id res : Bytes) (o : Broker)
      → Sound o
      → SoundCall (exchange_code lib w form client_id res o)
  unfolding exchange_code exchange_pending new_grant
  exchange_code-IsSound w form client_id res o h =
      let code = only_oauth_value form (codes "code") in
      let key = lib.sha256 code in
      let used : Broker = record o { codes_out = remove key o.codes_out } in
      let sound =
        with_pending-IsSound o o.tickets _ h h.tickets_hold
          (Holds-remove _ _ key o.codes_out h.codes_hold) in
      each SoundCall (not (is_secret code)) h (at used sound (find key o.codes_out))
    where
      at :
          (u : Broker)
          → Sound u
          → (found : Option Authorization)
          → SoundCall (exchange_pending lib w form client_id res found u)
      at u k none = k
      at u k (some pending) =
          each SoundCall (code_matches lib pending client_id res _ _)
            (issue_grant_locked-IsSound w (new_grant lib u client_id) u
              (record { issuer_is = k.issuer_is; resource_is = k.resource_is; scope_is = refl }) k)
            k

  exchange_refresh-IsSound :
      (w : World) (form : Values) (client_id res : Bytes) (o : Broker)
      → Sound o
      → SoundCall (exchange_refresh lib w form client_id res o)
  unfolding exchange_refresh exchange_previous
  exchange_refresh-IsSound w form client_id res o h =
      let token = only_oauth_value form (codes "refresh_token") in
      let key = lib.sha256 token in
      let used : Broker = record o { refresh = remove key o.refresh } in
      let sound =
        with_grants-IsSound o o.access _ h h.access_hold
          (Holds-remove _ _ key o.refresh h.refresh_hold) in
      each SoundCall (not (is_secret token)) h (
        at used sound (find key o.refresh) (λ g e.
          AllEntries-find (λ k v. IsOurs issuer resource v) key o.refresh h.refresh_hold.each_has
            e))
    where
      at :
          (u : Broker)
          → Sound u
          → (found : Option Grant) → ((g : Grant) → found ≡ some g → IsOurs issuer resource g)
          → SoundCall (exchange_previous lib w client_id res found u)
      at u k none f = k
      at u k (some previous) f =
          each SoundCall (grant_matches lib u previous client_id res)
            (issue_grant_locked-IsSound w previous u (f previous refl) k) k

  exchange_form-IsSound :
      (w : World) (form : Values) (o : Broker) → Sound o → SoundCall (exchange_form lib w form o)
  unfolding exchange_form
  exchange_form-IsSound w form o h =
      let pruned = prune_locked-IsSound w.now o h in
      let kind = only_oauth_value form (codes "grant_type") in
      let client = only_oauth_value form (codes "client_id") in
      let res = only_oauth_value form (codes "resource") in
      each SoundCall (is_refused lib form client res o) h (
        each SoundCall (is_unsupported lib kind) h (
          each SoundCall (bytes_eq kind (codes "authorization_code"))
            (exchange_code-IsSound w form client res (prune_locked w.now o) pruned)
            (exchange_refresh-IsSound w form client res (prune_locked w.now o) pruned)))

  pub issue_token-IsSound :
      (w : World) (authorization : Bytes) (form : Option Values) (o : Broker)
      → Sound o
      → SoundCall (issue_token lib w authorization form o)
  unfolding issue_token exchange_read
  issue_token-IsSound w authorization none o h =
      each SoundCall (not (bytes_eq authorization [])) h h
  issue_token-IsSound w authorization (some form) o h =
      each SoundCall (not (bytes_eq authorization [])) h (exchange_form-IsSound w form o h)

  pub principal-IsSound :
      (w : World) (token : Bytes) (o : Broker) → Sound o → SoundCall (principal lib w token o)
  unfolding principal
  principal-IsSound w token o h =
      each SoundCall (is_no_token lib token) h (prune_locked-IsSound w.now o h)
