-- ===== src/Registry/Invariant.antt =====
-- The registry stays well formed, and a peer's identity hint is pinned while it is listed.
use sync_space.Base.{
  ℕ, String, ◌≡◌, ◌≢◌, refl, Option, none, some, List, [], ◌∷◌, arith, string_eq, ◌==◌, str_eq_iff,
  Bool-cases, ◌∙◌, inl, inr,
}
use sync_space.Base.Dict
use sync_space.Base.Dict.{Dict}
use sync_space.Models.{Device}
use sync_space.Registry.{
  Parsers, Registry, Call, upserts, sweeps, new_registry, is_valid_device, identity_conflicts,
  observed, lost, store_observed, upsert, sweep_device, sweep_devices, sweep, step, run,
}
use sync_space.Registry.Validity.{IsEntry, IsWellFormed}

pub new_registry-IsWellFormed :
    (p : Parsers) (self_id : String) (offline_after remove_after : ℕ) {r : Registry}
    → new_registry self_id offline_after remove_after ≡ some r
    → IsWellFormed p r
unfolding new_registry
new_registry-IsWellFormed p self_id offline_after remove_after h = ground arith

store_observed-IsWellFormed :
    (p : Parsers) (r : Registry) (d : Device) (at : ℕ) (found : Option Device)
    → IsWellFormed p r
    → IsEntry p r.self_id d.id d
    → IsWellFormed p (store_observed r d at found).0
unfolding store_observed
store_observed-IsWellFormed p r d at found w e =
    let inserted : IsWellFormed p (record r { devices = Dict.insert d.id d r.devices }) = record {
      offline_positive = w.offline_positive;
      remove_later = w.remove_later;
      distinct = Dict.insert-Distinct d.id d r.devices w.distinct;
      entries = Dict.Every-insert (IsEntry p r.self_id) d.id d r.devices e w.entries;
    } in
    ground (arith, inserted)

is_valid_device-observed :
    (p : Parsers) (d : Device) (at : ℕ) → is_valid_device p (observed d at) ≡ is_valid_device p d
unfolding is_valid_device
is_valid_device-observed p d at = refl

is_valid_device-lost : (p : Parsers) (d : Device) → is_valid_device p (lost d) ≡ is_valid_device p d
unfolding is_valid_device
is_valid_device-lost p d = refl

upsert-IsWellFormed :
    (p : Parsers) (r : Registry) (d : Device) (at : ℕ)
    → IsWellFormed p r
    → IsWellFormed p (upsert p r d at).0
unfolding upsert
upsert-IsWellFormed p r d at w = elim (Bool-cases (is_valid_device p d)) [
  | inr bad ↦ rw bad w
  | inl good ↦ elim (Bool-cases (d.id == r.self_id)) [
    | inl self ↦ rw (good, self) w
    | inr other ↦
        rw (good, other)
          (store_observed-IsWellFormed p r (observed d at) at (Dict.lookup d.id r.devices) w
            (record {
              keyed = refl;
              other = ground (arith, str_eq_iff d.id r.self_id);
              valid = is_valid_device-observed p d at ∙ good;
              state = refl;
            }))
  ]
]

-- What a sweep leaves of one entry, found or not.
abbrev pub swept : Registry → ℕ → Option Device → Option Device
swept r now none = none
swept r now (some d) = (sweep_device r now d).0

pub lookup-sweep_devices :
    (r : Registry) (now : ℕ) (k : String) (ds : Dict String Device)
    → Dict.Distinct ds
    → Dict.lookup k (sweep_devices r now ds).0 ≡ swept r now (Dict.lookup k ds)
unfolding sweep_devices Dict.lookup
lookup-sweep_devices r now k [] h = refl
lookup-sweep_devices r now k ((id, d) ∷ ds) h =
    ground (arith, lookup-sweep_devices r now k ds h.1, str_eq_iff id k)

sweep_devices-Distinct :
    (r : Registry) (now : ℕ) (ds : Dict String Device)
    → Dict.Distinct ds
    → Dict.Distinct (sweep_devices r now ds).0
unfolding sweep_devices
sweep_devices-Distinct r now [] h = tt
sweep_devices-Distinct r now ((id, d) ∷ ds) h =
    ground (arith, lookup-sweep_devices r now id ds h.1, sweep_devices-Distinct r now ds h.1)

sweep_devices-IsEntry :
    (p : Parsers) (r : Registry) (now : ℕ) (ds : Dict String Device)
    → Dict.Every (IsEntry p r.self_id) ds
    → Dict.Every (IsEntry p r.self_id) (sweep_devices r now ds).0
unfolding sweep_devices sweep_device
sweep_devices-IsEntry p r now [] h = tt
sweep_devices-IsEntry p r now ((id, d) ∷ ds) h =
    let rest = sweep_devices-IsEntry p r now ds h.1 in
    ground (arith, rest, is_valid_device-lost p d)

sweep-IsWellFormed :
    (p : Parsers) (r : Registry) (now : ℕ) → IsWellFormed p r → IsWellFormed p (sweep r now)
unfolding sweep
sweep-IsWellFormed p r now w = record {
  offline_positive = w.offline_positive;
  remove_later = w.remove_later;
  distinct = sweep_devices-Distinct r now r.devices w.distinct;
  entries = sweep_devices-IsEntry p r now r.devices w.entries;
}

pub step-IsWellFormed :
    (p : Parsers) (r : Registry) (c : Call) → IsWellFormed p r → IsWellFormed p (step p r c)
unfolding step
step-IsWellFormed p r (upserts d at) w = upsert-IsWellFormed p r d at w
step-IsWellFormed p r (sweeps now) w = sweep-IsWellFormed p r now w

run-IsWellFormed :
    (p : Parsers) (r : Registry) (cs : List Call) → IsWellFormed p r → IsWellFormed p (run p r cs)
unfolding run
run-IsWellFormed p r [] w = w
run-IsWellFormed p r (c ∷ cs) w = run-IsWellFormed p (step p r c) cs (step-IsWellFormed p r c w)

-- A registry that `NewRegistry` built stays well formed under any advertisements and sweeps: it
-- lists each ID once, only valid devices, never this device, and a connection state that goes
-- with the online flag.
pub run-new_registry-IsWellFormed :
    (p : Parsers) (self_id : String) (offline_after remove_after : ℕ) {r : Registry}
    → new_registry self_id offline_after remove_after ≡ some r
    → (cs : List Call) → IsWellFormed p (run p r cs)
run-new_registry-IsWellFormed p self_id offline_after remove_after {r} h cs =
    run-IsWellFormed p r cs (new_registry-IsWellFormed p self_id offline_after remove_after h)

-- A stored identity hint is never replaced: after one more call the device is gone or shows the
-- hint that it had.
pub step-hint_pinned :
    (p : Parsers) (r : Registry) (c : Call) (id : String) {d d' : Device}
    → IsWellFormed p r
    → Dict.lookup id r.devices ≡ some d
    → d.identity_hint ≢ ""
    → Dict.lookup id (step p r c).devices ≡ some d'
    → d'.identity_hint ≡ d.identity_hint
unfolding step upsert store_observed identity_conflicts
step-hint_pinned p r (upserts d at) id {d = old} w found hinted after = ground (
  arith,
  Dict.lookup-insert d.id id (observed d at) r.devices,
  str_eq_iff d.id id,
  str_eq_iff old.identity_hint "",
  str_eq_iff d.identity_hint "",
  str_eq_iff old.identity_hint d.identity_hint,
)
step-hint_pinned p r (sweeps now) id w found hinted after =
    (unfold sweep sweep_device in
      ground (arith, lookup-sweep_devices r now id r.devices w.distinct))
