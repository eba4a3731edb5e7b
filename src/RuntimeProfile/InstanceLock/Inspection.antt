-- ===== src/RuntimeProfile/InstanceLock/Inspection.antt =====
-- `InspectDaemon` and `ReadActiveEndpoint` of internal/runtimeprofile/lock.go: what another process
-- finds out about the owner of an instance.
use kg_os.Common.{
  Bytes, [], Bool, not, ◌||◌, Option, none, some, Outcome, ok, err, if◌then◌else◌, bytes_eq,
}
use kg_os.RuntimeProfile.InstanceLock.{
  ℤ, pos, is_positive, Fault, Locator, Content, empty, partial, garbage, object, Json, Lock, Net,
  validate_daemon_endpoint, not_opened, not_inspected, not_sought, not_decoded, invalid_locator,
  trailing_data, not_connected, no_active_daemon, not_running,
}

pub data DaemonState : Type 0 where
  stopped starting running unavailable : DaemonState

pub record DaemonStatus : Type 0 where
  pub state : DaemonState
  pub pid : ℤ
  pub endpoint : Bytes
  pub version : Bytes
  pub fault : Option Fault

-- `os.OpenFile`.
pub data Open : Type 0 where
  not_there failed opened : Open

-- What one inspection meets. `inspects` is false where trying the lock fails for another reason
-- than that it is taken; `connects` is whether the endpoint answers and the connection closes.
pub record Probe : Type 0 where
  pub opens : Open
  pub inspects : Bool
  pub seeks : Bool
  pub connects : Bool

abbrev bare : DaemonState → Option Fault → DaemonStatus
bare state fault = record { state = state; pid = pos 0; endpoint = []; version = []; fault = fault }

abbrev status_of : DaemonState → Locator → Option Fault → DaemonStatus
status_of state l fault = record {
  state = state;
  pid = l.pid;
  endpoint = l.endpoint;
  version = l.version;
  fault = fault;
}

-- `probeDaemonEndpoint`; `none` is no error.
unfoldable pub probe_daemon_endpoint : Probe → Option Fault → Option Fault
probe_daemon_endpoint p (some fault) = some fault
probe_daemon_endpoint p none = if p.connects then none else some not_connected

unfoldable pub probed : Locator → Option Fault → DaemonStatus
probed l none = status_of running l none
probed l (some fault) = status_of unavailable l (some fault)

unfoldable pub inspect_content : Net → Probe → Content → DaemonStatus
unfolding probed probe_daemon_endpoint
inspect_content net p empty = bare starting none
inspect_content net p partial = bare starting none
inspect_content net p garbage = bare unavailable (some not_decoded)
inspect_content net p (object l trailing) =
    if not (is_positive l.pid) || bytes_eq l.version []
    then bare unavailable (some invalid_locator)
    else if trailing
    then bare unavailable (some trailing_data)
    else if bytes_eq l.endpoint []
    then status_of starting l none
    else probed l (probe_daemon_endpoint p (validate_daemon_endpoint net l.endpoint))

unfoldable pub inspect_opened : Json → Net → Probe → Lock → DaemonStatus
unfolding inspect_content
inspect_opened json net p s =
    if not p.inspects
    then bare unavailable (some not_inspected)
    else if not s.held
    then bare stopped none
    else if not p.seeks
    then bare unavailable (some not_sought)
    else inspect_content net p (json.decode s.content)

unfoldable pub inspect_at : Json → Net → Probe → Open → Lock → DaemonStatus
unfolding inspect_opened
inspect_at json net p not_there s = bare stopped none
inspect_at json net p failed s = bare unavailable (some not_opened)
inspect_at json net p opened s = inspect_opened json net p s

-- `InspectDaemon` from another process than the owner's.
unfoldable pub inspect_daemon : Json → Net → Probe → Lock → DaemonStatus
unfolding inspect_at
inspect_daemon json net p s = inspect_at json net p p.opens s

unfoldable pub endpoint_fault : Option Fault → Fault
endpoint_fault none = not_running
endpoint_fault (some fault) = fault

unfoldable pub active_endpoint : DaemonStatus → DaemonState → Outcome Fault Bytes
unfolding endpoint_fault
active_endpoint status running = ok status.endpoint
active_endpoint status stopped = err no_active_daemon
active_endpoint status _ = err (endpoint_fault status.fault)

-- `ReadActiveEndpoint`.
unfoldable pub read_active_endpoint : Json → Net → Probe → Lock → Outcome Fault Bytes
unfolding active_endpoint
read_active_endpoint json net p s =
    let status = inspect_daemon json net p s in active_endpoint status status.state
