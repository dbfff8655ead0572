-- ===== src/Registry.antt =====
-- backend/internal/discovery/registry.go: the in-memory registry of discovered peers. The map
-- `devices` is an association list; `made` lists the events that the sections under the
-- mutex have made, oldest first, and each operation's section is one step. The code hands the events
-- to the publisher only after it has given up the mutex, so the order in which they are published is
-- no part of the registry; the log lines are left out.
-- `net.ParseIP` and `uuid.Parse` enter as the two tests of `Parsers`.
pub mod Validity
pub mod Invariant
pub mod Liveness
pub mod Replay
mod Tests
use Prim.Native.String.{len}
use sync_space.Base.{
  ℕ, ◌-◌, String, Bool, true, false, not, ◌&&◌, ◌||◌, Option, none, some, List, [], ◌∷◌, ◌++◌, ltb,
  leb, if◌then◌else◌, ◌==◌, string_eq, bool_eq, is_blank,
}
use sync_space.Base.Dict
use sync_space.Base.Dict.{Dict}
use sync_space.Base.Int.{pos, ltb_ℤ, int_eq}
use sync_space.Models.{
  Device, ConnectionState, DiscoveryEvent, DiscoveryEventType, device_discovered, device_updated,
  device_offline, device_removed,
}

pub record Parsers : Type 0 where
  pub is_uuid : String → Bool
  pub is_ip : String → Bool

pub data RegistryError : Type 0 where
  invalid_device duplicate_identity : RegistryError

pub record Registry : Type 0 where
  pub devices : Dict String Device
  pub self_id : String
  pub offline_after : ℕ
  pub remove_after : ℕ
  pub made : List DiscoveryEvent

pub new_registry : String → ℕ → ℕ → Option Registry
new_registry self_id offline_after remove_after =
    if not (ltb 0 offline_after) || leb remove_after offline_after
    then none
    else some (record {
      devices = [];
      self_id = self_id;
      offline_after = offline_after;
      remove_after = remove_after;
      made = [];
    })

pub is_valid_device : Parsers → Device → Bool
is_valid_device p d =
    p.is_uuid d.id
    && not (
        is_blank d.name
        || ltb 128 (len d.name)
        || ltb 255 (len d.hostname)
        || is_blank d.type
        || ltb 32 (len d.type)
        || is_blank d.platform
        || ltb 32 (len d.platform)
        || is_blank d.app_version
        || ltb 64 (len d.app_version)
        || ltb 32 (len d.identity_hint)
        || not (p.is_ip d.local_ip)
        || ltb_ℤ d.port (pos 1)
        || ltb_ℤ (pos 65535) d.port)

pub identity_conflicts : Device → Device → Bool
identity_conflicts existing incoming =
    if existing.identity_hint == ""
    then false
    else incoming.identity_hint == "" || not (existing.identity_hint == incoming.identity_hint)

pub metadata_changed : Device → Device → Bool
metadata_changed existing incoming =
    not (existing.name == incoming.name)
    || not (existing.hostname == incoming.hostname)
    || not (existing.type == incoming.type)
    || not (existing.platform == incoming.platform)
    || not (existing.local_ip == incoming.local_ip)
    || not (existing.port == incoming.port)
    || not (existing.app_version == incoming.app_version)
    || not (existing.available_storage == incoming.available_storage)
    || not (existing.transfer_capability == incoming.transfer_capability)
    || not (existing.supported_protocol_version == incoming.supported_protocol_version)
    || not (existing.maximum_chunk_size == incoming.maximum_chunk_size)
    || not (existing.compression_support == incoming.compression_support)
    || not (existing.identity_hint == incoming.identity_hint)
    || not (existing.pairing_available == incoming.pairing_available)

abbrev new_event : DiscoveryEventType → Device → ℕ → DiscoveryEvent
new_event type device timestamp = record { type = type; device = device; timestamp = timestamp }

abbrev make_events : Registry → List DiscoveryEvent → Registry
make_events r events = record r { made = r.made ++ events }

abbrev observed : Device → ℕ → Device
observed d at = record d {
  last_seen = at;
  is_online = true;
  connection_state = ConnectionState.online;
}

abbrev lost : Device → Device
lost d = record d { is_online = false; connection_state = ConnectionState.offline }

-- The part of `Upsert` under the lock; the last argument is the entry of the map.
pub store_observed : Registry → Device → ℕ → Option Device → Registry × Option RegistryError
store_observed r d at none = (
  make_events (record r { devices = Dict.insert d.id d r.devices })
      (new_event device_discovered d at ∷ []),
  none,
)
store_observed r d at (some existing) =
    let stored = record r { devices = Dict.insert d.id d r.devices } in
    if identity_conflicts existing d then (r, some duplicate_identity) else (
      if not existing.is_online || metadata_changed existing d
          then make_events stored (new_event device_updated d at ∷ [])
          else stored,
      none,
    )

pub upsert : Parsers → Registry → Device → ℕ → Registry × Option RegistryError
upsert p r device at =
    let d = observed device at in
    if not (is_valid_device p device)
    then (r, some invalid_device)
    else if device.id == r.self_id
    then (r, none)
    else store_observed r d at (Dict.lookup d.id r.devices)

-- One entry of the map in `Sweep`: what is left of it, and its event. An age below zero counts as
-- zero here; both timeouts are positive, so the tests agree.
pub sweep_device : Registry → ℕ → Device → Option Device × List DiscoveryEvent
sweep_device r now d =
    let age = now - d.last_seen in
    if leb r.remove_after age
    then (none, new_event device_removed (lost d) now ∷ [])
    else if d.is_online && leb r.offline_after age
    then (some (lost d), new_event device_offline (lost d) now ∷ [])
    else (some d, [])

abbrev put : String → Option Device → Dict String Device → Dict String Device
put id none ds = ds
put id (some d) ds = (id, d) ∷ ds

pub sweep_devices : Registry → ℕ → Dict String Device → Dict String Device × List DiscoveryEvent
sweep_devices r now [] = ([], [])
sweep_devices r now ((id, d) ∷ ds) =
    let (kept, events) = sweep_devices r now ds in
    let (left, event) = sweep_device r now d in (put id left kept, event ++ events)

pub sweep : Registry → ℕ → Registry
sweep r now =
    let (kept, events) = sweep_devices r now r.devices in
    make_events (record r { devices = kept }) events

-- Any history of the registry.
pub data Call : Type 0 where
  upserts : Device → ℕ → Call
  sweeps : ℕ → Call

pub step : Parsers → Registry → Call → Registry
step p r (upserts d at) = (upsert p r d at).0
step p r (sweeps now) = sweep r now

pub run : Parsers → Registry → List Call → Registry
run p r [] = r
run p r (c ∷ cs) = run p (step p r c) cs
