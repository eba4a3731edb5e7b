-- ===== src/RuntimeProfile/InstanceLock/Ownership.antt =====
-- When a daemon is seen, and what an acquired and a closed lock leave of the one before.
use kg_os.Common.{
  each, each_by, Bytes, [], Bool, true, false, not, ◌||◌, ◌&&◌, Option, none, some, Outcome, ok,
  err, bytes_eq, ◌≡◌, refl, ap, subst,
}
use kg_os.RuntimeProfile.InstanceLock.{
  is_positive, Fault, Locator, Content, empty, partial, garbage, object, Json, Lock, Called, Net,
  Disk, synced, with_body, replace, validate_daemon_endpoint, close, acquired, acquire_lock,
  no_active_daemon,
}
use kg_os.RuntimeProfile.InstanceLock.Inspection.{
  DaemonState, stopped, starting, running, unavailable, DaemonStatus, Open, not_there, failed,
  opened, Probe, probed, probe_daemon_endpoint, inspect_content, inspect_opened, inspect_at,
  inspect_daemon, active_endpoint, read_active_endpoint,
}

-- What stands behind an endpoint that a reader is given.
pub record IsOwned (json : Json) (net : Net) (p : Probe) (s : Lock) (at : Bytes) : Type 0 where
  pub is_held : s.held ≡ true
  pub locator : Locator
  pub is_published : json.decode s.content ≡ object locator false
  pub is_at : locator.endpoint ≡ at
  pub is_process : is_positive locator.pid ≡ true
  pub is_valid : validate_daemon_endpoint net at ≡ none
  pub is_answered : p.connects ≡ true

abbrev Sees : Json → Net → Probe → Lock → DaemonStatus → Type 0
Sees json net p s status = status.state ≡ running → IsOwned json net p s status.endpoint

probed-Sees :
    (json : Json) (net : Net) (p : Probe) (l : Locator) (s : Lock) (fault : Option Fault)
    → s.held ≡ true
    → json.decode s.content ≡ object l false
    → is_positive l.pid ≡ true
    → validate_daemon_endpoint net l.endpoint ≡ fault
    → Sees json net p s (probed l (probe_daemon_endpoint p fault))
unfolding probed probe_daemon_endpoint
probed-Sees json net p l s (some fault) h c i v = λ e. cc
probed-Sees json net p l s none h c i v =
    each_by (λ f. Sees json net p s (probed l f)) p.connects
      (λ answered e. record {
        is_held = h;
        locator = l;
        is_published = c;
        is_at = refl;
        is_process = i;
        is_valid = v;
        is_answered = answered;
      })
      (λ _ e. cc)

first_false : (a b : Bool) → not a || b ≡ false → a ≡ true
first_false true b e = refl
first_false false b e = cc

inspect_content-Sees :
    (json : Json) (net : Net) (p : Probe) (s : Lock) (content : Content)
    → s.held ≡ true
    → json.decode s.content ≡ content
    → Sees json net p s (inspect_content net p content)
unfolding inspect_content
inspect_content-Sees json net p s empty h c = λ e. cc
inspect_content-Sees json net p s partial h c = λ e. cc
inspect_content-Sees json net p s garbage h c = λ e. cc
inspect_content-Sees json net p s (object l true) h c =
    each (Sees json net p s) (not (is_positive l.pid) || bytes_eq l.version []) (λ e. cc) (λ e. cc)
inspect_content-Sees json net p s (object l false) h c =
    each_by (Sees json net p s) (not (is_positive l.pid) || bytes_eq l.version []) (λ _ e. cc)
      λ g.
        each (Sees json net p s) (bytes_eq l.endpoint []) (λ e. cc)
          (probed-Sees json net p l s (validate_daemon_endpoint net l.endpoint) h c
            (first_false (is_positive l.pid) (bytes_eq l.version []) g) refl)

is_taken : (b : Bool) → not b ≡ false → b ≡ true
is_taken true e = refl
is_taken false e = cc

inspect_daemon-Sees :
    (json : Json) (net : Net) (p : Probe) (s : Lock)
    → Sees json net p s (inspect_daemon json net p s)
unfolding inspect_daemon inspect_at inspect_opened
inspect_daemon-Sees json net p s = at p.opens
  where
    at : (o : Open) → Sees json net p s (inspect_at json net p o s)
    at not_there = λ e. cc
    at failed = λ e. cc
    at opened =
        each (Sees json net p s) (not p.inspects) (λ e. cc)
          (each_by (Sees json net p s) (not s.held) (λ _ e. cc)
            λ h.
              each (Sees json net p s) (not p.seeks) (λ e. cc)
                (inspect_content-Sees json net p s (json.decode s.content) (is_taken s.held h)
                  refl))

-- An endpoint is read, whatever the file holds and however reading it goes, only where a process
-- holds the lock, the file decodes to one locator with a valid process and that endpoint, the endpoint is
-- valid (so on a loopback address), and a connection to it is answered.
pub read_active_endpoint-IsOwned :
    (json : Json) (net : Net) (p : Probe) (s : Lock) (at : Bytes)
    → read_active_endpoint json net p s ≡ ok at
    → IsOwned json net p s at
unfolding read_active_endpoint active_endpoint
read_active_endpoint-IsOwned json net p s at e = found status.state refl e
  where
    status : DaemonStatus
    status = inspect_daemon json net p s

    endpoint_of : Outcome Fault Bytes → Bytes
    endpoint_of (ok a) = a
    endpoint_of (err f) = []

    endpoint_is : active_endpoint status running ≡ ok at → status.endpoint ≡ at
    endpoint_is e = ap endpoint_of e

    found :
        (state : DaemonState)
        → status.state ≡ state
        → active_endpoint status state ≡ ok at
        → IsOwned json net p s at
    found stopped same e = cc
    found starting same e = cc
    found unavailable same e = cc
    found running same e =
        subst (IsOwned json net p s) (endpoint_is e) (inspect_daemon-Sees json net p s same)

abbrev Acquires : Bool → Called (Unit {0}) → Type 0
Acquires held m =
    m.1 ≡ ok tt → (held ≡ false) × (m.0.held ≡ true) × (m.0.content ≡ []) × (m.0.closed ≡ false)

replace-Acquires :
    (d : Disk) (s : Lock)
    → s.held ≡ true
    → s.closed ≡ false
    → Acquires false (acquired d (replace d [] s))
unfolding acquired replace with_body synced
replace-Acquires d s h c = at (replace d [] s) cleared
  where
    at : (m : Called (Unit {0})) → Acquires false m → Acquires false (acquired d m)
    at (s', ok a) k = k
    at (s', err f) k = λ e. cc

    cleared : Acquires false (replace d [] s)
    cleared =
        each (Acquires false) s.closed (λ e. cc)
          (each (Acquires false) (not d.truncates) (λ e. cc)
            (each (Acquires false) (not d.seeks) (λ e. cc)
              (each (Acquires false) d.syncs (λ e. (refl, h, refl, c)) (λ e. cc))))

-- `AcquireLock` succeeds only where nobody held the lock; then it is held, and what an earlier owner
-- published is gone. Where somebody holds it the file and the lock stay as they were.
pub acquire_lock-takes :
    (d : Disk) (content : Bytes) (held : Bool)
    → ((acquire_lock d content held).1 ≡ ok tt
        → (held ≡ false)
          × ((acquire_lock d content held).0.held ≡ true)
          × ((acquire_lock d content held).0.content ≡ [])
          × ((acquire_lock d content held).0.closed ≡ false))
      × (held ≡ true
          → (acquire_lock d content held).0
            ≡ record { closed = false; content = content; held = true })
unfolding acquire_lock
acquire_lock-takes d content true = (
  each (Acquires true) (not d.opens) (λ e. cc) (λ e. cc),
  λ _.
      each
        (λ (m : Called (Unit {0})). m.0 ≡ record { closed = false; content = content; held = true })
        (not d.opens) refl refl,
)
acquire_lock-takes d content false = (
  each (Acquires false) (not d.opens) (λ e. cc)
      (each (Acquires false) (not d.locks) (λ e. cc) (replace-Acquires d _ refl refl)),
  λ e. cc,
)

-- Nobody holds the lock, and the handle is closed.
abbrev IsFree : Called (Unit {0}) → Type 0
IsFree m = (m.0.closed ≡ true) × (m.0.held ≡ false)

not_held : (held unlocks closes : Bool) → unlocks ≡ true → held && not (unlocks || closes) ≡ false
not_held true true closes u = refl
not_held false unlocks closes u = refl
not_held true false closes u = cc

close-IsFree : (d : Disk) (s : Lock) → s.closed ≡ false → d.unlocks ≡ true → IsFree (close d s)
unfolding close
close-IsFree d s c u =
    each_by IsFree s.closed (λ e. cc) (λ _. (refl, not_held s.held d.unlocks d.closes u))

free-stopped :
    (json : Json) (net : Net) (p : Probe) (s : Lock)
    → p.opens ≡ opened
    → p.inspects ≡ true
    → s.held ≡ false
    → ((inspect_daemon json net p s).state ≡ stopped)
      × (read_active_endpoint json net p s ≡ err no_active_daemon)
unfolding inspect_daemon inspect_at inspect_opened read_active_endpoint active_endpoint
free-stopped json net p s o i h = (rw (o, i, h) refl, rw (o, i, h) refl)

-- After a `Close` of an open handle that released the lock, whatever else went wrong in it, the handle is closed, and
-- whoever can try the lock finds the daemon stopped and reads no endpoint.
pub close-inspect :
    (json : Json) (net : Net) (d : Disk) (p : Probe) (s : Lock)
    → p.opens ≡ opened
    → p.inspects ≡ true
    → s.closed ≡ false
    → d.unlocks ≡ true
    → ((close d s).0.closed ≡ true)
      × ((inspect_daemon json net p (close d s).0).state ≡ stopped)
      × (read_active_endpoint json net p (close d s).0 ≡ err no_active_daemon)
close-inspect json net d p s o i c u =
    let (is_closed, is_free) = close-IsFree d s c u in
    let (is_stopped, is_refused) = free-stopped json net p (close d s).0 o i is_free in
    (is_closed, is_stopped, is_refused)
