-- ===== src/McpServer/OAuth/Handlers.antt =====
-- That the handlers of an authorization keep what holds of the broker.
use kg_os.Common.{
  each, each_by, ℕ, ◌+◌, ◌-◌, ◌≤◌, Bytes, codes, List, Bool, true, false, not, ◌||◌, ◌&&◌, Option,
  none, some, ltb, leb, bytes_eq, length, ◌≡◌, refl, arith,
}
use kg_os.Common.Table.{find, length-put-le, AllEntries-find}
use kg_os.McpServer.OAuth.{
  Lib, Authorization, CachedDocument, Broker, World, max_pending_oauth, prune_locked,
  client_cache_lifetime,
}
use kg_os.McpServer.OAuth.Forms.{
  Values, only_oauth_value, is_secret, valid_oauth_client_id, valid_web_bearer,
}
use kg_os.McpServer.OAuth.Grants.{random_oauth_secret}
use kg_os.McpServer.OAuth.Flow.{
  ClientDocument, Redirects, Decision, bad_client, refused, known, is_client_document,
  cache_document, fetched_redirects, look_up, start_redirects, end_redirects, begin_start,
  begin_end, add_ticket, begin_known, requested, is_request, authorization_details, approve, decide,
  is_no_decision, finish_input, finish_authorization, contains,
}
use kg_os.McpServer.OAuth.Sound.{
  IsAsked, Holds-remove, Holds-put, Sound, prune_locked-IsSound, with_pending-IsSound,
  with_documents-IsSound,
}

module _ (lib : Lib) (issuer resource : Bytes) where
  abbrev Good : Broker → Type 0
  Good = Sound lib issuer resource

  abbrev GoodCall {ℓ} : {A : Type ℓ} → Broker × A → Type 0
  GoodCall m = Good m.0

  approve-IsSound :
      (w : World) (key : Bytes) (pending : Authorization) (code : Option Bytes) (o : Broker)
      → leb max_pending_oauth (length o.codes_out) ≡ false
      → IsAsked lib resource pending
      → Good o
      → GoodCall (approve lib w key pending code o)
  unfolding approve
  approve-IsSound w key pending none o room a h = h
  approve-IsSound w key pending (some code) o room a h =
      with_pending-IsSound lib issuer resource o _ _ h
        (Holds-remove _ _ key o.tickets h.tickets_hold)
        (Holds-put _ _ (lib.sha256 code) _ o.codes_out room
          (record {
            resource_is = a.resource_is;
            has_client = a.has_client;
            has_redirect = a.has_redirect;
          })
          h.codes_hold)

  decide-IsSound :
      (w : World) (key decision : Bytes) (found : Option Authorization) (o : Broker)
      → ((a : Authorization) → found ≡ some a → IsAsked lib resource a)
      → Good o
      → GoodCall (decide lib w key decision found o)
  unfolding decide
  decide-IsSound w key decision none o f h = h
  decide-IsSound w key decision (some pending) o f h =
      each GoodCall (bytes_eq decision (codes "deny"))
        (with_pending-IsSound lib issuer resource o _ o.codes_out h
          (Holds-remove _ _ key o.tickets h.tickets_hold) h.codes_hold)
        (each_by GoodCall (leb max_pending_oauth (length o.codes_out)) (λ _. h)
          λ room.
            approve-IsSound w key pending (random_oauth_secret lib w.random) o room (f pending refl)
              h)

  finish_input-IsSound :
      (w : World) (input : Option (Bytes × Bytes)) (o : Broker)
      → Good o
      → GoodCall (finish_input lib w input o)
  unfolding finish_input
  finish_input-IsSound w none o h = h
  finish_input-IsSound w (some (request_id, decision)) o h =
      let key = lib.sha256 request_id in
      let pruned = prune_locked w.now o in
      let sound = prune_locked-IsSound lib issuer resource w.now o h in
      each GoodCall (is_no_decision lib request_id decision) h (
        decide-IsSound w key decision (find key pruned.tickets) pruned
          (λ a e.
            AllEntries-find (λ k v. IsAsked lib resource v) key pruned.tickets
              sound.tickets_hold.each_has e)
          sound)

  pub finish_authorization-IsSound :
      (w : World) (r : Decision) (o : Broker) → Good o → GoodCall (finish_authorization lib w r o)
  unfolding finish_authorization
  finish_authorization-IsSound w r o h = each GoodCall (not (bytes_eq r.origin o.issuer)) h (
      each GoodCall (not (valid_web_bearer lib o r.authorization)) h (
        each GoodCall
          (not (bytes_eq r.content_type (codes "application/json")) || ltb 1024 r.content_length) h
          (finish_input-IsSound w r.input o h)))

  pub authorization_details-IsSound :
      (w : World) (authorization : Bytes) (query : Values) (o : Broker)
      → Good o
      → GoodCall (authorization_details lib w authorization query o)
  unfolding authorization_details
  authorization_details-IsSound w authorization query o h =
      each GoodCall (not (valid_web_bearer lib o authorization)) h (
        each GoodCall (not (is_secret (only_oauth_value query (codes "request_id")))) h
          (prune_locked-IsSound lib issuer resource w.now o h))

  counted-IsSound :
      (o : Broker) (n : ℕ) → n ≤ 8 → Good o → Good (record o { metadata_requests = n })
  counted-IsSound o n l h =
      with_documents-IsSound lib issuer resource o o.documents n h h.few_documents l

  cache_document-IsSound :
      (w : World) (client_id : Bytes) (redirects : List Bytes) (o : Broker)
      → Good o
      → Good (cache_document lib w client_id redirects o)
  unfolding cache_document
  cache_document-IsSound w client_id redirects o h =
      each_by Good (ltb (length o.documents) max_pending_oauth)
        (λ room.
          with_documents-IsSound lib issuer resource o _ o.metadata_requests h
            (ground (
              arith,
              length-put-le client_id
                  (record { redirects = redirects; expires = w.later + client_cache_lifetime })
                  o.documents,
            ))
            h.few_requests)
        (λ _. h)

  fetched_redirects-IsSound :
      (w : World) (client_id : Bytes) (document : Option ClientDocument) (o : Broker)
      → Good o
      → GoodCall (fetched_redirects lib w client_id document o)
  unfolding fetched_redirects
  fetched_redirects-IsSound w client_id none o h =
      counted-IsSound o (o.metadata_requests - 1) (omega (arith, h.few_requests)) h
  fetched_redirects-IsSound w client_id (some d) o h =
      let kept = cache_document lib w client_id d.redirect_uris (prune_locked w.later o) in
      let good =
        cache_document-IsSound w client_id d.redirect_uris (prune_locked w.later o)
          (prune_locked-IsSound lib issuer resource w.later o h) in
      each GoodCall (is_client_document lib client_id d)
        (counted-IsSound kept (kept.metadata_requests - 1) (omega (arith, good.few_requests)) good)
        (counted-IsSound o (o.metadata_requests - 1) (omega (arith, h.few_requests)) h)

  look_up-IsSound :
      (client_id : Bytes) (found : Option CachedDocument) (o : Broker)
      → Good o
      → GoodCall (look_up lib client_id found o)
  unfolding look_up
  look_up-IsSound client_id (some cached) o h = h
  look_up-IsSound client_id none o h =
      each_by GoodCall (leb 8 o.metadata_requests || leb max_pending_oauth (length o.documents))
        (λ _. h) (λ room. counted-IsSound o (o.metadata_requests + 1) (ground arith) h)

  start_redirects-IsSound :
      (w : World) (client_id : Bytes) (o : Broker)
      → Good o
      → GoodCall (start_redirects lib w client_id o)
  unfolding start_redirects
  start_redirects-IsSound w client_id o h =
      each GoodCall (not (valid_oauth_client_id lib client_id)) h (
        look_up-IsSound client_id _ (prune_locked w.now o)
          (prune_locked-IsSound lib issuer resource w.now o h))

  end_redirects-IsSound :
      (w : World) (client_id : Bytes) (document : Option ClientDocument)
      (m : Broker × Option Redirects)
      → GoodCall m
      → GoodCall (end_redirects lib w client_id document m)
  unfolding end_redirects
  end_redirects-IsSound w client_id document (o, some redirects) h = h
  end_redirects-IsSound w client_id document (o, none) h =
      fetched_redirects-IsSound w client_id document o h

  add_ticket-IsSound :
      (w : World) (a : Authorization) (ticket : Option Bytes) (o : Broker)
      → IsAsked lib resource a
      → Good o
      → GoodCall (add_ticket lib w a ticket o)
  unfolding add_ticket
  add_ticket-IsSound w a none o k h = h
  add_ticket-IsSound w a (some ticket) o k h =
      let pruned = prune_locked w.later o in
      let good = prune_locked-IsSound lib issuer resource w.later o h in
      each_by GoodCall
        (leb max_pending_oauth (length pruned.tickets)
          || leb max_pending_oauth (length pruned.codes_out))
        (λ _. good)
        λ room.
          with_pending-IsSound lib issuer resource pruned _ pruned.codes_out good
            (Holds-put _ _ (lib.sha256 ticket) a pruned.tickets (first_of _ _ room) k
              good.tickets_hold)
            good.codes_hold
    where
      first_of : (a b : Bool) → a || b ≡ false → a ≡ false
      first_of false b e = refl
      first_of true b e = cc

  begin_known-IsSound :
      (w : World) (a : Authorization) (m : Broker × Redirects)
      → IsAsked lib resource a
      → GoodCall m
      → GoodCall (begin_known lib w a m)
  unfolding begin_known
  begin_known-IsSound w a (o, bad_client) k h = h
  begin_known-IsSound w a (o, refused) k h = h
  begin_known-IsSound w a (o, known redirects) k h =
      each GoodCall (contains redirects a.redirect_uri)
        (add_ticket-IsSound w a (random_oauth_secret lib w.random) o k h) h

  is_request-IsAsked :
      (w : World) (query : Values) (o : Broker)
      → o.resource ≡ resource
      → is_request lib query (requested lib w query o) o ≡ true
      → IsAsked lib resource (requested lib w query o)
  unfolding is_request
  is_request-IsAsked w query o same e =
      let parts = first_two _ _ _ _ _ _ _ _ e in
      record { resource_is = same; has_client = parts.0; has_redirect = parts.1 }
    where
      first_two :
          (a b c d k l m n : Bool)
          → a && b && c && d && k && l && m && n ≡ true
          → (a ≡ true) × (b ≡ true)
      first_two true true c d k l m n e = (refl, refl)
      first_two true false c d k l m n e = cc
      first_two false b c d k l m n e = cc

  pub begin_start-IsSound :
      (w : World) (query : Values) (o : Broker) → Good o → GoodCall (begin_start lib w query o)
  unfolding begin_start
  begin_start-IsSound w query o h =
      let a = requested lib w query o in
      each GoodCall (is_request lib query a o) (start_redirects-IsSound w a.client_id o h) h

  pub begin_end-IsSound :
      (w : World) (query : Values) (document : Option ClientDocument)
      (m : Broker × Option Redirects)
      → GoodCall m
      → GoodCall (begin_end lib w query document m)
  unfolding begin_end
  begin_end-IsSound w query document (o, started) h =
      let a = requested lib w query o in
      each_by GoodCall (is_request lib query a o)
        (λ asked.
          begin_known-IsSound w a (end_redirects lib w a.client_id document (o, started))
            (is_request-IsAsked w query o h.resource_is asked)
            (end_redirects-IsSound w a.client_id document (o, started) h))
        (λ _. h)
