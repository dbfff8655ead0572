-- ===== src/Registry/Validity.antt =====
-- What a stored device and a well-formed registry are (backend/internal/discovery/registry.go).
use sync_space.Base.{String, Bool, true, false, ◌≡◌, ◌≢◌, ◌<◌}
use sync_space.Base.{string_eq}
use sync_space.Base.Dict
use sync_space.Models.{Device, ConnectionState, online, offline}
use sync_space.Registry.{Parsers, Registry, is_valid_device}

-- The connection state is the one that goes with the flag.
abbrev pub state_of : Bool → ConnectionState
state_of true = online
state_of false = offline

-- An entry of the map: a valid device under its own ID, never this device itself.
pub record IsEntry (p : Parsers) (self_id id : String) (d : Device) : Type 0 where
  pub keyed : d.id ≡ id
  pub other : id ≢ self_id
  pub valid : is_valid_device p d ≡ true
  pub state : d.connection_state ≡ state_of d.is_online

pub record IsWellFormed (p : Parsers) (r : Registry) : Type 0 where
  pub offline_positive : 0 < r.offline_after
  pub remove_later : r.offline_after < r.remove_after
  pub distinct : Dict.Distinct r.devices
  pub entries : Dict.Every (IsEntry p r.self_id) r.devices
