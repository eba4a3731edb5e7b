-- ===== src/Tests/Locks.antt =====
-- The ownership of an instance: internal/runtimeprofile/lock.go.
use kg_os.Common.{
  Bytes, codes, ◌∷◌, [], ◌++◌, utf8_valid, Bool, true, false, Option, some, none, ok, err, ◌≡◌,
  refl,
}
use kg_os.RuntimeProfile.InstanceLock.{
  pos, Lock, Locator, Net, Disk, acquire_lock, publish_running, publish, publish_encoded,
  publish_valid, newline, close, replace, with_body, written, synced, url_fault,
  validate_daemon_endpoint, is_positive, no_active_daemon,
}
use kg_os.RuntimeProfile.InstanceLock.Inspection.{
  Probe, opened, stopped, inspect_daemon, read_active_endpoint,
}
use kg_os.RuntimeProfile.InstanceLock.Published.{
  CanRead, IsRunning, IsEncodable, is_int, publish_running-inspect,
}
use kg_os.Tests.LocatorTexts.{sample_json, locator_text, sample_json-ReadsBack}
use kg_os.RuntimeProfile.InstanceLock.Ownership.{
  IsOwned, read_active_endpoint-IsOwned, acquire_lock-takes, close-inspect,
}

-- A parser that knows one address.
abbrev sample_net : Net
sample_net = record {
  parse_url = λ text. some (record {
    scheme = codes "http";
    host = codes "127.0.0.1:80";
    hostname = codes "127.0.0.1";
    has_user = false;
    path = [];
    raw_query = [];
    fragment = [];
  });
  is_loopback = λ name. true;
}

abbrev good_disk : Disk
good_disk = record {
  opens = true;
  locks = true;
  truncates = true;
  seeks = true;
  failed_write = none;
  syncs = true;
  unlocks = true;
  closes = true;
}

abbrev good_probe : Probe
good_probe = record { opens = opened; inspects = true; seeks = true; connects = true }

abbrev address : Bytes
address = codes "http://127.0.0.1:80"

abbrev version : Bytes
version = codes "1"

abbrev owned : Lock
owned = record { closed = false; content = []; held = true }

abbrev locator : Locator
locator = record { pid = pos 9; endpoint = address; version = version }

abbrev published : Lock
published = record owned { content = locator_text locator ++ newline }

publishes :
    publish_running sample_json sample_net good_disk (pos 9) address version owned
    ≡ (published, ok tt)
unfolding publish_running publish_valid publish publish_encoded replace with_body written synced
    validate_daemon_endpoint url_fault is_positive kg_os.Common.bytes_eq
publishes = refl

locator-IsEncodable : IsEncodable locator
unfolding is_int utf8_valid
locator-IsEncodable = record { has_int = refl; has_endpoint = refl; has_version = refl }

readable : CanRead good_probe
readable = record { can_open = refl; can_inspect = refl; can_seek = refl; is_answered = refl }

publish_running-inspect_example : IsRunning sample_json sample_net good_probe locator published
publish_running-inspect_example =
    publish_running-inspect sample_json sample_net good_disk good_probe (pos 9) address version
      owned published sample_json-ReadsBack locator-IsEncodable readable refl publishes

reads : read_active_endpoint sample_json sample_net good_probe published ≡ ok address
reads =
    (publish_running-inspect sample_json sample_net good_disk good_probe (pos 9) address version
      owned published sample_json-ReadsBack locator-IsEncodable readable refl publishes).is_read

read_active_endpoint-IsOwned_example : IsOwned sample_json sample_net good_probe published address
read_active_endpoint-IsOwned_example =
    read_active_endpoint-IsOwned sample_json sample_net good_probe published address reads

acquire_lock-takes_example :
    ((acquire_lock good_disk published.content false).1 ≡ ok tt
      → (false ≡ false)
        × ((acquire_lock good_disk published.content false).0.held ≡ true)
        × ((acquire_lock good_disk published.content false).0.content ≡ [])
        × ((acquire_lock good_disk published.content false).0.closed ≡ false))
    × (false ≡ true
        → (acquire_lock good_disk published.content false).0
          ≡ record { closed = false; content = published.content; held = true })
acquire_lock-takes_example = acquire_lock-takes good_disk published.content false

close-inspect_example :
    ((close good_disk published).0.closed ≡ true)
    × ((inspect_daemon sample_json sample_net good_probe (close good_disk published).0).state
        ≡ stopped)
    × (read_active_endpoint sample_json sample_net good_probe (close good_disk published).0
        ≡ err no_active_daemon)
close-inspect_example =
    close-inspect sample_json sample_net good_disk good_probe published refl refl refl refl
