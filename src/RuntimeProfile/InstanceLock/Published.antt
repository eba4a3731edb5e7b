-- ===== src/RuntimeProfile/InstanceLock/Published.antt =====
-- Reading the file of an instance lock that its owner has published in.
use kg_os.Common.{
  each, each_by, Bytes, [], ◌∷◌, ◌++◌, Bool, true, false, not, ◌||◌, Option, none, some, ok,
  bytes_eq, ltb, ◌^◌, utf8_valid, ◌≡◌, refl, ◌∙◌, subst,
}
use kg_os.RuntimeProfile.InstanceLock.{
  ℤ, pos, negsuc, is_positive, Fault, Locator, object, Json, newline, Lock, Called, Net, Disk,
  synced, written, with_body, replace, validate_daemon_endpoint, publish_encoded, publish,
  publish_valid, publish_running, endpoint, endpoint_in,
}
use kg_os.RuntimeProfile.InstanceLock.Inspection.{
  running, opened, Probe, probed, probe_daemon_endpoint, inspect_content, inspect_opened,
  inspect_at, inspect_daemon, active_endpoint, read_active_endpoint,
}

-- Where a call succeeds, its state has a property.
abbrev Gives : (Lock → Type 0) → Called (Unit {0}) → Type 0
Gives P m = m.1 ≡ ok tt → P m.0

record Holds (body : Bytes) (held : Bool) (s : Lock) : Type 0 where
  content_is : s.content ≡ body
  is_open : s.closed ≡ false
  held_is : s.held ≡ held

-- A write that succeeds leaves what it wrote.
replace-Holds : (d : Disk) (body : Bytes) (s : Lock) → Gives (Holds body s.held) (replace d body s)
unfolding replace with_body written synced
replace-Holds d body s =
    each_by (Gives (Holds body s.held)) s.closed (λ _ e. cc)
      λ is_open.
        each (Gives (Holds body s.held)) (not d.truncates) (λ e. cc)
          (each (Gives (Holds body s.held)) (not d.seeks) (λ e. cc) (put body is_open))
  where
    done :
        (body : Bytes)
        → s.closed ≡ false
        → Gives (Holds body s.held) (synced d (record s { content = body }))
    done body is_open =
        each (Gives (Holds body s.held)) d.syncs
          (λ e. record { content_is = refl; is_open = is_open; held_is = refl }) (λ e. cc)

    at :
        (body : Bytes)
        → s.closed ≡ false
        → (left : Option Bytes)
        → Gives (Holds body s.held) (written d body left (record s { content = [] }))
    at body is_open (some left) = λ e. cc
    at body is_open none = done body is_open

    put :
        (body : Bytes)
        → s.closed ≡ false
        → Gives (Holds body s.held) (with_body d body (record s { content = [] }))
    put [] is_open = done [] is_open
    put (b ∷ body) is_open = at (b ∷ body) is_open d.failed_write

-- Go's `int` on a machine of 64 bits.
unfoldable pub is_int : ℤ → Bool
is_int (pos n) = ltb n (2 ^ 63)
is_int (negsuc n) = ltb n (2 ^ 63)

-- What JSON can express of a `Locator`: `json.Marshal` changes a string that is not valid UTF-8.
pub record IsEncodable (l : Locator) : Type 0 where
  pub has_int : is_int l.pid ≡ true
  pub has_endpoint : utf8_valid l.endpoint ≡ true
  pub has_version : utf8_valid l.version ≡ true

-- A JSON text, with a newline behind it, is decoded to what was encoded.
pub record ReadsBack (json : Json) : Type 0 where
  pub decode_marshal :
      (l : Locator) (body : Bytes)
      → IsEncodable l
      → json.marshal l ≡ some body
      → json.decode (body ++ newline) ≡ object l false

-- The file holds a locator as it is read back.
record HoldsLocator (json : Json) (l : Locator) (held : Bool) (s : Lock) : Type 0 where
  reads : json.decode s.content ≡ object l false
  is_open : s.closed ≡ false
  held_is : s.held ≡ held

publish-HoldsLocator :
    (json : Json) (d : Disk) (l : Locator) (s : Lock)
    → ReadsBack json
    → IsEncodable l
    → Gives (HoldsLocator json l s.held) (publish json d l s)
unfolding publish publish_encoded
publish-HoldsLocator json d l s back h = at (json.marshal l) refl
  where
    at :
        (encoded : Option Bytes)
        → json.marshal l ≡ encoded
        → Gives (HoldsLocator json l s.held) (publish_encoded d encoded s)
    at none same = λ e. cc
    at (some body) same = λ e.
        let held = replace-Holds d (body ++ newline) s e in
        record {
          reads = rw held.content_is (back.decode_marshal l body h same);
          is_open = held.is_open;
          held_is = held.held_is;
        }

-- A reader that can open the file, and whose connection is answered.
pub record CanRead (p : Probe) : Type 0 where
  pub can_open : p.opens ≡ opened
  pub can_inspect : p.inspects ≡ true
  pub can_seek : p.seeks ≡ true
  pub is_answered : p.connects ≡ true

inspect-HoldsLocator :
    (json : Json) (net : Net) (p : Probe) (l : Locator) (s : Lock)
    → CanRead p
    → HoldsLocator json l true s
    → inspect_daemon json net p s ≡ inspect_content net p (object l false)
unfolding inspect_daemon inspect_at inspect_opened
inspect-HoldsLocator json net p l s r h =
    rw (r.can_open, r.can_inspect, r.can_seek, h.held_is, h.reads) refl

none_of : (a b c : Bool) → a || b || c ≡ false → (a ≡ false) × (b ≡ false) × (c ≡ false)
none_of false false false e = (refl, refl, refl)
none_of true b c e = cc
none_of false true c e = cc
none_of false false true e = cc

inspect-running :
    (net : Net) (p : Probe) (l : Locator)
    → p.connects ≡ true
    → not (is_positive l.pid) || bytes_eq l.endpoint [] || bytes_eq l.version [] ≡ false
    → validate_daemon_endpoint net l.endpoint ≡ none
    → inspect_content net p (object l false) ≡ record {
      state = running;
      pid = l.pid;
      endpoint = l.endpoint;
      version = l.version;
      fault = none;
    }
unfolding inspect_content probed probe_daemon_endpoint
inspect-running net p l c g v =
    let (is_pid, has_endpoint, has_version) =
      none_of (not (is_positive l.pid)) (bytes_eq l.endpoint []) (bytes_eq l.version []) g in
    rw (is_pid, has_endpoint, has_version, v, c) refl

-- What all readers find out about a daemon that runs.
pub record IsRunning (json : Json) (net : Net) (p : Probe) (l : Locator) (s : Lock) : Type 0 where
  pub is_seen : inspect_daemon json net p s ≡ record {
    state = running;
    pid = l.pid;
    endpoint = l.endpoint;
    version = l.version;
    fault = none;
  }
  pub is_read : read_active_endpoint json net p s ≡ ok l.endpoint
  pub is_known : (d : Disk) → d.seeks ≡ true → endpoint json d s ≡ ok l.endpoint

HoldsLocator-IsRunning :
    (json : Json) (net : Net) (p : Probe) (l : Locator) (s : Lock)
    → CanRead p
    → not (is_positive l.pid) || bytes_eq l.endpoint [] || bytes_eq l.version [] ≡ false
    → validate_daemon_endpoint net l.endpoint ≡ none
    → HoldsLocator json l true s
    → IsRunning json net p l s
unfolding read_active_endpoint active_endpoint endpoint endpoint_in
HoldsLocator-IsRunning json net p l s r g v h =
    let seen =
      inspect-HoldsLocator json net p l s r h ∙ inspect-running net p l r.is_answered g v in
    let (_, has_endpoint, _) =
      none_of (not (is_positive l.pid)) (bytes_eq l.endpoint []) (bytes_eq l.version []) g in
    record {
      is_seen = seen;
      is_read = rw seen refl;
      is_known = λ d sought. rw (h.is_open, sought, h.reads, has_endpoint) refl;
    }

-- Where JSON reads back what it can express, the process fits into 64 bits, the endpoint and the
-- version are valid UTF-8, the owner's lock is held and `PublishRunning` succeeds: whoever can open the file and is
-- answered at the endpoint finds the daemon running with the process, endpoint and version that
-- were published, and reads that endpoint, as the owner does.
pub publish_running-inspect :
    (json : Json) (net : Net) (d : Disk) (p : Probe) (pid : ℤ) (at version : Bytes) (s s' : Lock)
    → ReadsBack json
    → IsEncodable (record { pid = pid; endpoint = at; version = version })
    → CanRead p
    → s.held ≡ true
    → publish_running json net d pid at version s ≡ (s', ok tt)
    → IsRunning json net p (record { pid = pid; endpoint = at; version = version }) s'
unfolding publish_running publish_valid
publish_running-inspect json net d p pid at version s s' back h r held e =
    subst (Gives (IsRunning json net p l)) e published refl
  where
    l : Locator
    l = record { pid = pid; endpoint = at; version = version }

    valid :
        not (is_positive pid) || bytes_eq at [] || bytes_eq version [] ≡ false
        → (v : Option Fault) → validate_daemon_endpoint net at ≡ v
        → Gives (IsRunning json net p l) (publish_valid json d l v s)
    valid g (some fault) v = λ e. cc
    valid g none v = λ done.
        let s'' = (publish json d l s).0 in
        HoldsLocator-IsRunning json net p l s'' r g v (
          subst (λ b. HoldsLocator json l b s'') held (publish-HoldsLocator json d l s back h done))

    published : Gives (IsRunning json net p l) (publish_running json net d pid at version s)
    published =
        each_by (Gives (IsRunning json net p l))
          (not (is_positive pid) || bytes_eq at [] || bytes_eq version []) (λ _ e. cc)
          (λ g. valid g (validate_daemon_endpoint net at) refl)
