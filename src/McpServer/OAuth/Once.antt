-- ===== src/McpServer/OAuth/Once.antt =====
-- A code is tried once.
use kg_os.Common.{
  each, each_by, has_prefix, Bytes, codes, [], true, false, not, Option, none, some, leb, bytes_eq,
  length, ◌≡◌, ◌≢◌, sym, ◌∙◌, ap, arith, ◌||◌,
}
use kg_os.Common.Table.{find, find-keep-none, find-remove_self}
use kg_os.McpServer.OAuth.{
  Lib, Authorization, Grant, Broker, World, tokens, Handled, max_oauth_tokens, prune_locked,
}
use kg_os.McpServer.OAuth.Forms.{Values, is_secret}
use kg_os.McpServer.OAuth.Grants.{
  random_oauth_secret, grant_secrets, grant_pruned, issue_grant_locked, new_grant, code_matches,
  exchange_pending, exchange_code, is_refused, is_unsupported, exchange_form, exchange_read,
  issue_token,
}
use kg_os.McpServer.OAuth.Exchange.{
  field, code_key, Exchanged, by_code, by_refresh, issue_token-Exchanged,
}

-- A form that tries a code: that of `authorization_code`, with a code that is a secret by its form.
pub record TriesCode (lib : Lib) (form : Values) (o : Broker) : Type 0 where
  pub is_allowed : is_refused lib form (field form "client_id") (field form "resource") o ≡ false
  pub is_exchange : field form "grant_type" ≡ codes "authorization_code"
  pub has_code : is_secret (field form "code") ≡ true

module _ (lib : Lib) (key : Bytes) where
  abbrev Lacks : Handled → Type 0
  Lacks m = find key m.0.codes_out ≡ none

  grant_pruned-Lacks :
      (w : World) (grant : Grant) (o : Broker)
      → find key o.codes_out ≡ none
      → Lacks (grant_pruned lib w grant o)
  unfolding grant_pruned grant_secrets
  grant_pruned-Lacks w grant o h =
      each Lacks (leb max_oauth_tokens (length o.access) || leb max_oauth_tokens (length o.refresh))
        h (at (random_oauth_secret lib w.random) (random_oauth_secret lib w.random_refresh))
    where
      at : (a r : Option Bytes) → Lacks (grant_secrets lib w grant a r o)
      at none r = h
      at (some a) none = h
      at (some a) (some r) = h

  exchange_pending-Lacks :
      (w : World) (form : Values) (client_id resource : Bytes) (found : Option Authorization)
      (o : Broker)
      → find key o.codes_out ≡ none
      → Lacks (exchange_pending lib w form client_id resource found o)
  unfolding exchange_pending issue_grant_locked prune_locked
  exchange_pending-Lacks w form client_id resource none o h = h
  exchange_pending-Lacks w form client_id resource (some pending) o h =
      each Lacks (code_matches lib pending client_id resource _ _)
        (grant_pruned-Lacks w (new_grant lib o client_id) (prune_locked w.later o)
          (find-keep-none _ key o.codes_out h))
        h

other_kinds : codes "authorization_code" ≡ codes "refresh_token" → ⊥
unfolding has_prefix
other_kinds e = let absurd : true ≡ false = ap (λ s. has_prefix s (codes "a")) e in cc absurd

module _ (lib : Lib) where
  exchange_code-forgets :
      (w : World) (form : Values) (client_id resource : Bytes) (o : Broker)
      → is_secret (field form "code") ≡ true
      → Lacks lib (code_key lib form) (exchange_code lib w form client_id resource o)
  unfolding exchange_code
  exchange_code-forgets w form client_id resource o secret =
      each_by (Lacks lib (code_key lib form)) (not (is_secret (field form "code")))
        (λ no. ground arith)
        (λ _.
          exchange_pending-Lacks lib (code_key lib form) w form client_id resource _
            (record o { codes_out = _ }) (find-remove_self (code_key lib form) o.codes_out))

  issue_token-forgets :
      (w : World) (form : Values) (o : Broker)
      → TriesCode lib form o
      → Lacks lib (code_key lib form) (issue_token lib w [] (some form) o)
  unfolding issue_token exchange_read exchange_form bytes_eq
  issue_token-forgets w form o h =
      let P = Lacks lib (code_key lib form) in
      let kind = field form "grant_type" in
      each_by P (is_refused lib form (field form "client_id") (field form "resource") o)
        (λ refused. cc (h.is_allowed, refused))
        (λ _.
          each_by P (is_unsupported lib kind) (λ other. cc (rw h.is_exchange at other))
            (λ _.
              each_by P (bytes_eq kind (codes "authorization_code"))
                (λ _. exchange_code-forgets w form _ _ (prune_locked w.now o) h.has_code)
                (λ other. cc (rw h.is_exchange at other))))

  -- Where the first form tries a code, with success or not, a form of the same code gives no tokens
  -- at the next exchange, whatever else it holds.
  pub issue_token-once :
      (w : World) (form : Values) (o : Broker)
      → TriesCode lib form o
      → (w' : World) (header : Bytes) (form' : Values) (a r : Bytes)
      → field form' "grant_type" ≡ codes "authorization_code"
      → field form' "code" ≡ field form "code"
      → (issue_token lib w' header (some form') (issue_token lib w [] (some form) o).0).1
        ≢ tokens a r
  unfolding prune_locked
  issue_token-once w form o h w' header form' a r kind same given =
      let left = (issue_token lib w [] (some form) o).0 in
      let (plain, (f, is_form, exchanged)) =
        issue_token-Exchanged lib w' a r header (some form') left given in
      let one : f ≡ form' = cc is_form in
      not_again left
        (find-keep-none _ (code_key lib form) left.codes_out (issue_token-forgets w form o h))
        (rw one at exchanged)
    where
      not_again :
          (o : Broker) {o' : Broker}
          → find (code_key lib form) (prune_locked w'.now o).codes_out ≡ none
          → Exchanged lib w' a r form' (prune_locked w'.now o) o'
          → ⊥
      not_again o gone (by_code k named (pending, redeemed, made)) =
          cc (gone, same, redeemed.is_found)
      not_again o gone (by_refresh k named renewed) = other_kinds (sym kind ∙ k)
