-- ===== src/McpServer/OAuth/Runs.antt =====
-- What holds of the broker after any calls.
use kg_os.Common.{each_by, ℕ, Bytes, [], List, ◌∷◌, Option, none, some, ◌≡◌, refl, arith, subst}
use kg_os.McpServer.OAuth.{
  Url, with_origin, new_broker, origin_of, is_no_origin, Lib, Broker, World, new_oauth_broker,
}
use kg_os.McpServer.OAuth.Forms.{Values}
use kg_os.McpServer.OAuth.Grants.{issue_token, principal}
use kg_os.McpServer.OAuth.Flow.{
  ClientDocument, Redirects, Decision, begin_start, begin_end, begin_authorization,
  authorization_details, finish_authorization,
}
use kg_os.McpServer.OAuth.Sound.{Holds, IsSound, Sound, issue_token-IsSound, principal-IsSound}
use kg_os.McpServer.OAuth.Handlers.{
  finish_authorization-IsSound, authorization_details-IsSound, begin_start-IsSound,
  begin_end-IsSound,
}

-- What is asked of the broker. `starts` and `ends` are the two parts of an authorization request,
-- and other calls may come between them.
pub data Call : Type 0 where
  begins : World → Values → Option ClientDocument → Call
  starts : World → Values → Call
  ends : World → Values → Option ClientDocument → Option Redirects → Call
  shows : World → Bytes → Values → Call
  decides : World → Decision → Call
  exchanges : World → Bytes → Option Values → Call
  enters : World → Bytes → Call

unfoldable pub step : Lib → Call → Broker → Broker
step lib (begins w query document) o = (begin_authorization lib w query document o).0
step lib (starts w query) o = (begin_start lib w query o).0
step lib (ends w query document started) o = (begin_end lib w query document (o, started)).0
step lib (shows w authorization query) o = (authorization_details lib w authorization query o).0
step lib (decides w r) o = (finish_authorization lib w r o).0
step lib (exchanges w authorization form) o = (issue_token lib w authorization form o).0
step lib (enters w token) o = (principal lib w token o).0

unfoldable pub run : Lib → List Call → Broker → Broker
run lib [] o = o
run lib (c ∷ calls) o = run lib calls (step lib c o)

module _ (lib : Lib) (issuer resource : Bytes) where
  abbrev Good : Broker → Type 0
  Good = Sound lib issuer resource

  abbrev GoodCall {ℓ} : {A : Type ℓ} → Broker × A → Type 0
  GoodCall m = Good m.0

  step-IsSound : (c : Call) (o : Broker) → Good o → Good (step lib c o)
  unfolding step begin_authorization
  step-IsSound (begins w query document) o h =
      begin_end-IsSound lib issuer resource w query document (begin_start lib w query o)
        (begin_start-IsSound lib issuer resource w query o h)
  step-IsSound (starts w query) o h = begin_start-IsSound lib issuer resource w query o h
  step-IsSound (ends w query document started) o h =
      begin_end-IsSound lib issuer resource w query document (o, started) h
  step-IsSound (shows w authorization query) o h =
      authorization_details-IsSound lib issuer resource w authorization query o h
  step-IsSound (decides w r) o h = finish_authorization-IsSound lib issuer resource w r o h
  step-IsSound (exchanges w authorization form) o h =
      issue_token-IsSound lib issuer resource w authorization form o h
  step-IsSound (enters w token) o h = principal-IsSound lib issuer resource w token o h

  run-IsSound : (calls : List Call) (o : Broker) → Good o → Good (run lib calls o)
  unfolding run
  run-IsSound [] o h = h
  run-IsSound (c ∷ calls) o h = run-IsSound calls (step lib c o) (step-IsSound c o h)

Holds-nil : {V : Type 0} {P : V → Type 0} {n : ℕ} → Holds P n []
Holds-nil = record { each_has = tt; at_most = omega arith }

new_broker-IsSound :
    {lib : Lib} (origin token : Bytes) {o : Broker}
    → new_broker lib origin token ≡ o
    → IsSound lib o.issuer o.issuer o
new_broker-IsSound {lib} origin token e =
    subst (λ o. IsSound lib o.issuer o.issuer o) e
      (record {
        issuer_is = refl;
        resource_is = refl;
        tickets_hold = Holds-nil;
        codes_hold = Holds-nil;
        access_hold = Holds-nil;
        refresh_hold = Holds-nil;
        few_documents = omega arith;
        few_requests = omega arith;
      })

with_origin-IsSound :
    (lib : Lib) (issuer token : Bytes) (parsed : Option Url) {o : Broker}
    → with_origin lib issuer token parsed ≡ some o
    → IsSound lib o.issuer o.issuer o
unfolding with_origin
with_origin-IsSound lib issuer token none e = cc
with_origin-IsSound lib issuer token (some u) {o} e =
    each_by (λ m. m ≡ some o → IsSound lib o.issuer o.issuer o) (is_no_origin issuer u) (λ _ l. cc)
      (λ _ l. new_broker-IsSound (origin_of u) token (cc l)) e

-- A new broker, whose resource is its issuer, and then any calls, the two parts of an authorization
-- request in any order with the others, with any answers of the clock, the random source and the
-- network: at most 128 requests and 128 codes wait, at most 256 access and 256 refresh tokens and
-- 128 documents are held, at most 8 fetches run, each request and code is for this resource, of
-- a client and with a redirect URI of the allowed form, and each token's grant is of this
-- issuer, for this resource, with the one scope.
pub run-new_oauth_broker :
    (lib : Lib) (issuer token : Bytes) (calls : List Call) (o : Broker)
    → new_oauth_broker lib issuer token ≡ some o
    → IsSound lib o.issuer o.issuer (run lib calls o)
unfolding new_oauth_broker
run-new_oauth_broker lib issuer token calls o e =
    run-IsSound lib o.issuer o.issuer calls o
      (with_origin-IsSound lib issuer token (lib.parse_url issuer) e)
