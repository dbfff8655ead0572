-- ===== src/Registry/Replay.antt =====
-- The events describe the registry: a client that replays them holds the registry's devices, up to
-- the time each was last seen, which changes without an event.
use sync_space.Base.{
  ℕ, String, false, ◌≡◌, refl, Option, none, some, List, [], ◌∷◌, ◌++◌, arith, string_eq, bool_eq,
  equal_bool_iff, ◌==◌, if◌then◌else◌, str_eq_iff, inl, inr, Option-cases, Bool-cases,
}
use sync_space.Base.Dict
use sync_space.Base.Dict.{Dict}
use sync_space.Base.Int.{int_eq, equal_int_iff}
use sync_space.Models.{
  Device, DiscoveryEvent, DiscoveryEventType, device_discovered, device_updated, device_removed,
  device_offline,
}
use sync_space.Registry.{
  Parsers, Registry, Call, upserts, sweeps, observed, lost, metadata_changed, store_observed,
  upsert, sweep_device, sweep_devices, sweep, step, run, new_registry,
}
use sync_space.Registry.Validity.{IsEntry, IsWellFormed}
use sync_space.Registry.Invariant.{
  lookup-sweep_devices, step-IsWellFormed, new_registry-IsWellFormed,
}

-- A client's own map of devices, and what it does with an event.
abbrev pub apply : DiscoveryEventType → Device → Dict String Device → Dict String Device
apply device_removed d c = Dict.erase d.id c
apply _ d c = Dict.insert d.id d c

pub replay : Dict String Device → List DiscoveryEvent → Dict String Device
replay c [] = c
replay c (e ∷ es) = replay (apply e.type e.device c) es

replay-append :
    (c : Dict String Device) (es fs : List DiscoveryEvent)
    → replay c (es ++ fs) ≡ replay (replay c es) fs
unfolding replay
replay-append c [] fs = refl
replay-append c (e ∷ es) fs = replay-append (apply e.type e.device c) es fs

-- A device without the time at which it was last seen.
abbrev pub view : Option Device → Option Device
view none = none
view (some d) = some (record d { last_seen = 0 })

abbrev pub Shows : Dict String Device → Dict String Device → Type 0
Shows c ds = (id : String) → view (Dict.lookup id c) ≡ view (Dict.lookup id ds)

unchanged_view :
    (d e : Device)
    → metadata_changed d e ≡ false
    → d.id ≡ e.id
    → d.is_online ≡ e.is_online
    → d.connection_state ≡ e.connection_state
    → view (some d) ≡ view (some e)
unfolding metadata_changed
unchanged_view d e h i o s = ground (
  arith,
  str_eq_iff d.name e.name,
  str_eq_iff d.hostname e.hostname,
  str_eq_iff d.type e.type,
  str_eq_iff d.platform e.platform,
  str_eq_iff d.local_ip e.local_ip,
  equal_int_iff d.port e.port,
  str_eq_iff d.app_version e.app_version,
  equal_int_iff d.available_storage e.available_storage,
  equal_bool_iff d.transfer_capability e.transfer_capability,
  equal_int_iff d.supported_protocol_version e.supported_protocol_version,
  equal_int_iff d.maximum_chunk_size e.maximum_chunk_size,
  equal_bool_iff d.compression_support e.compression_support,
  str_eq_iff d.identity_hint e.identity_hint,
  equal_bool_iff d.pairing_available e.pairing_available,
)

-- What the client holds after all events so far.
abbrev pub client : Registry → Dict String Device
client r = replay [] r.made

store_observed-Shows :
    (p : Parsers) (r : Registry) (d : Device) (at : ℕ)
    → IsWellFormed p r
    → Shows (client r) r.devices
    → let q = (store_observed r (observed d at) at (Dict.lookup d.id r.devices)).0 in
      Shows (client q) q.devices
unfolding store_observed replay
store_observed-Shows p r d at w s k =
    let seen = observed d at in
    let discovery : DiscoveryEvent = record {
      type = device_discovered;
      device = seen;
      timestamp = at;
    } in
    let update : DiscoveryEvent = record { type = device_updated; device = seen; timestamp = at } in
    let by_client = Dict.lookup-insert d.id k seen (client r) in
    let by_store = Dict.lookup-insert d.id k seen r.devices in
    elim (Option-cases (Dict.lookup d.id r.devices)) [
      | inl e ↦
          ground (arith, e, s k, replay-append [] r.made (discovery ∷ []), by_client, by_store)
      | inr (old, e) ↦
          let entry = Dict.Every-lookup (IsEntry p r.self_id) d.id r.devices w.entries e in
          ground (
            arith,
            e,
            entry.keyed,
            entry.state,
            s k,
            replay-append [] r.made (update ∷ []),
            by_client,
            by_store,
            unchanged_view old seen,
            str_eq_iff d.id k,
          )
    ]

-- What a client holds of one peer after it has replayed the events of a sweep.
abbrev touched : Option Device → Option Device × List DiscoveryEvent → Option Device
touched o (none, es) = none
touched o (some d, []) = o
touched o (some d, e ∷ es) = some d

abbrev after_sweep : Registry → ℕ → Option Device → Option Device → Option Device
after_sweep r now none o = o
after_sweep r now (some d) o = touched o (sweep_device r now d)

sweep_device-replay :
    (r : Registry) (now : ℕ) (id k : String) (d : Device) (c : Dict String Device)
    → d.id ≡ id
    → Dict.lookup k (replay c (sweep_device r now d).1)
      ≡ (if id == k then touched (Dict.lookup id c) (sweep_device r now d) else Dict.lookup k c)
unfolding replay sweep_device
sweep_device-replay r now id k d c e = ground (
  arith,
  str_eq_iff id k,
  str_eq_iff d.id k,
  Dict.lookup-insert d.id k (lost d) c,
  Dict.lookup-erase d.id k c,
)

sweep_devices-replay :
    (p : Parsers) (r : Registry) (now : ℕ) (self_id k : String) (ds c : Dict String Device)
    → Dict.Distinct ds
    → Dict.Every (IsEntry p self_id) ds
    → Dict.lookup k (replay c (sweep_devices r now ds).1)
      ≡ after_sweep r now (Dict.lookup k ds) (Dict.lookup k c)
unfolding sweep_devices Dict.lookup
sweep_devices-replay p r now self_id k [] c h q = unfold replay in refl
sweep_devices-replay p r now self_id k ((id, d) ∷ ds) c h q =
    let c' = replay c (sweep_device r now d).1 in
    let rest = (sweep_devices r now ds).1 in
    ground (
      arith,
      replay-append c (sweep_device r now d).1 rest,
      sweep_devices-replay p r now self_id k ds c' h.1 q.1,
      sweep_device-replay r now id k d c q.0.keyed,
      str_eq_iff id k,
    )

sweep-Shows :
    (p : Parsers) (r : Registry) (now : ℕ)
    → IsWellFormed p r
    → Shows (client r) r.devices
    → Shows (client (sweep r now)) (sweep r now).devices
unfolding sweep
sweep-Shows p r now w s k =
    (unfold sweep_device in
      ground (
        arith,
        s k,
        replay-append [] r.made (sweep_devices r now r.devices).1,
        sweep_devices-replay p r now r.self_id k r.devices (client r) w.distinct w.entries,
        lookup-sweep_devices r now k r.devices w.distinct,
      ))

step-Shows :
    (p : Parsers) (r : Registry) (c : Call)
    → IsWellFormed p r
    → Shows (client r) r.devices
    → Shows (client (step p r c)) (step p r c).devices
unfolding step upsert
step-Shows p r (upserts d at) w s k = ground (arith, s k, store_observed-Shows p r d at w s k)
step-Shows p r (sweeps now) w s k = sweep-Shows p r now w s k

run-Shows :
    (p : Parsers) (r : Registry) (cs : List Call)
    → IsWellFormed p r
    → Shows (client r) r.devices
    → Shows (client (run p r cs)) (run p r cs).devices
unfolding run
run-Shows p r [] w s = s
run-Shows p r (c ∷ cs) w s =
    run-Shows p (step p r c) cs (step-IsWellFormed p r c w) (step-Shows p r c w s)

-- The events of one device.
abbrev pub events_of : String → List DiscoveryEvent → List DiscoveryEvent
events_of id [] = []
events_of id (e ∷ es) = if e.device.id == id then e ∷ events_of id es else events_of id es

apply-other :
    (type : DiscoveryEventType) (d : Device) (k : String) (c : Dict String Device)
    → (d.id == k) ≡ false
    → Dict.lookup k (apply type d c) ≡ Dict.lookup k c
apply-other device_removed d k c e = ground (arith, e, Dict.lookup-erase d.id k c)
apply-other device_discovered d k c e = ground (arith, e, Dict.lookup-insert d.id k d c)
apply-other device_updated d k c e = ground (arith, e, Dict.lookup-insert d.id k d c)
apply-other device_offline d k c e = ground (arith, e, Dict.lookup-insert d.id k d c)

-- What a client holds of a device depends on that device's events alone.
apply-lookup :
    (type : DiscoveryEventType) (d : Device) (k : String) (c c' : Dict String Device)
    → Dict.lookup k c ≡ Dict.lookup k c'
    → Dict.lookup k (apply type d c) ≡ Dict.lookup k (apply type d c')
apply-lookup device_removed d k c c' e =
    ground (arith, e, Dict.lookup-erase d.id k c, Dict.lookup-erase d.id k c')
apply-lookup device_discovered d k c c' e =
    ground (arith, e, Dict.lookup-insert d.id k d c, Dict.lookup-insert d.id k d c')
apply-lookup device_updated d k c c' e =
    ground (arith, e, Dict.lookup-insert d.id k d c, Dict.lookup-insert d.id k d c')
apply-lookup device_offline d k c c' e =
    ground (arith, e, Dict.lookup-insert d.id k d c, Dict.lookup-insert d.id k d c')

replay-events_of :
    (k : String) (c c' : Dict String Device) (es : List DiscoveryEvent)
    → Dict.lookup k c ≡ Dict.lookup k c'
    → Dict.lookup k (replay c es) ≡ Dict.lookup k (replay c' (events_of k es))
unfolding replay
replay-events_of k c c' [] e = e
replay-events_of k c c' (x ∷ es) e = elim (Bool-cases (x.device.id == k)) [
  | inl mine ↦
      let next =
        replay-events_of k (apply x.type x.device c) (apply x.type x.device c') es
          (apply-lookup x.type x.device k c c' e) in
      ground (arith, mine, next)
  | inr other ↦
      let kept = apply-other x.type x.device k c other in
      let next = replay-events_of k (apply x.type x.device c) c' es (ground (arith, kept, e)) in
      ground (arith, other, next)
]

-- In any history of a registry that `NewRegistry` built, let a client replay, from an empty map,
-- events that were published in any order in which those of each single device stand as the registry
-- made them, none lost: it holds exactly the devices that the registry lists, each equal to the
-- registry's in every field but the time it was last seen.
pub run-replay :
    (p : Parsers) (self_id : String) (offline_after remove_after : ℕ) {r : Registry}
    → new_registry self_id offline_after remove_after ≡ some r
    → (cs : List Call) (published : List DiscoveryEvent)
    → ((id : String) → events_of id published ≡ events_of id (run p r cs).made)
    → Shows (replay [] published) (run p r cs).devices
unfolding new_registry
run-replay p self_id offline_after remove_after {r} h cs published order id =
    let shows =
      run-Shows p r cs (new_registry-IsWellFormed p self_id offline_after remove_after h)
        (unfold replay in λ id. ground arith) in
    let one = replay-events_of id [] [] published refl in
    let all = replay-events_of id [] [] (run p r cs).made refl in
    ground (arith, shows id, one, all, order id)
