-- ===== src/Registry/Liveness.antt =====
-- What `Sweep` does to every peer, by the time since it was last seen.
use sync_space.Base.{
  ℕ, String, true, ◌≡◌, ◌+◌, ◌<◌, none, some, [], ◌∷◌, arith, string_eq, Option, Option-cases, inl,
  inr, leb, ◌&&◌, if◌then◌else◌,
}
use sync_space.Base.Dict
use sync_space.Base.Dict.{Dict}
use sync_space.Models.{Device}
use sync_space.Registry.{Parsers, Registry, lost, sweep_device, sweep_devices, sweep}
use sync_space.Registry.Validity.{IsWellFormed}
use sync_space.Registry.Invariant.{lookup-sweep_devices}

-- A peer that the registry still owes: not yet due for removal, and online only while it is fresh.
pub record IsFresh (r : Registry) (now : ℕ) (id : String) (d : Device) : Type 0 where
  pub kept : now < d.last_seen + r.remove_after
  pub shown : d.is_online ≡ true → now < d.last_seen + r.offline_after

sweep_devices-IsFresh :
    (r : Registry) (now : ℕ) (ds : Dict String Device)
    → 0 < r.offline_after
    → r.offline_after < r.remove_after
    → Dict.Every (IsFresh r now) (sweep_devices r now ds).0
unfolding sweep_devices sweep_device
sweep_devices-IsFresh r now [] h k = tt
sweep_devices-IsFresh r now ((id, d) ∷ ds) h k = ground (arith, sweep_devices-IsFresh r now ds h k)

-- After a sweep every listed peer was seen within the removal timeout, and every peer shown as
-- online within the offline timeout.
pub sweep-IsFresh :
    (p : Parsers) (r : Registry) (now : ℕ)
    → IsWellFormed p r
    → Dict.Every (IsFresh r now) (sweep r now).devices
unfolding sweep
sweep-IsFresh p r now w = sweep_devices-IsFresh r now r.devices w.offline_positive w.remove_later

-- What a sweep owes an entry of the map, by the timeouts added to the time it was last seen.
abbrev due : Registry → ℕ → Option Device → Option Device
due r now none = none
due r now (some d) =
    if leb (d.last_seen + r.remove_after) now
    then none
    else if d.is_online && leb (d.last_seen + r.offline_after) now
    then some (lost d)
    else some d

-- A sweep of a well-formed registry removes a peer exactly from the removal timeout on, marks an
-- online one offline from the offline timeout on, changes no other, and lists no peer that was not
-- there.
pub sweep_exact :
    (p : Parsers) (r : Registry) (now : ℕ) (id : String)
    → IsWellFormed p r
    → Dict.lookup id (sweep r now).devices ≡ due r now (Dict.lookup id r.devices)
unfolding sweep sweep_device
sweep_exact p r now id w =
    let by = lookup-sweep_devices r now id r.devices w.distinct in
    let o = w.offline_positive in
    let l = w.remove_later in
    elim (Option-cases (Dict.lookup id r.devices)) [
      | inl missing ↦ ground (arith, by, missing)
      | inr (d, found) ↦ ground (arith, by, found)
    ]
