-- ===== src/Registry/Tests.antt =====
-- The properties of the registry at concrete peers (backend/internal/discovery/registry.go).
use sync_space.Base.{
  true, false, not, some, List, [], ◌∷◌, ◌≡◌, refl, ◌==◌, string_eq, str_eq_iff, trim_space, arith,
}
use sync_space.Base.Dict
use sync_space.Base.Int.{pos}
use sync_space.Models.{Device, offline}
use sync_space.Registry.{
  Parsers, Registry, Call, upserts, sweeps, new_registry, run, step, sweep, observed, lost, upsert,
  store_observed, is_valid_device, identity_conflicts, metadata_changed, sweep_devices,
  sweep_device,
}
use sync_space.Registry.Validity.{IsWellFormed}
use sync_space.Registry.Invariant.{run-new_registry-IsWellFormed, step-hint_pinned}
use sync_space.Registry.Liveness.{sweep_exact}
use sync_space.Registry.Replay.{run-replay, Shows, replay}

abbrev parsers : Parsers
parsers = record { is_uuid = λ s. not (s == ""); is_ip = λ s. not (s == "") }

abbrev laptop : Device
laptop = record {
  id = "a1";
  name = "laptop";
  hostname = "laptop.local";
  type = "desktop";
  platform = "linux";
  local_ip = "10.0.0.2";
  port = pos 8787;
  app_version = "1.0.0";
  last_seen = 0;
  is_online = false;
  connection_state = offline;
  available_storage = pos 10;
  transfer_capability = true;
  supported_protocol_version = pos 1;
  maximum_chunk_size = pos 1024;
  compression_support = false;
  identity_hint = "AB:CD";
  pairing_available = true;
}

abbrev empty : Registry
empty = record { devices = []; self_id = "me"; offline_after = 10; remove_after = 30; made = [] }

empty_new : new_registry "me" 10 30 ≡ some empty
unfolding new_registry
empty_new = refl

abbrev history : List Call
history = upserts laptop 5 ∷ sweeps 20 ∷ upserts laptop 21 ∷ []

run-new_registry-IsWellFormed_example : IsWellFormed parsers (run parsers empty history)
run-new_registry-IsWellFormed_example =
    run-new_registry-IsWellFormed parsers "me" 10 30 empty_new history

run-replay_example :
    Shows (replay [] (run parsers empty history).made) (run parsers empty history).devices
run-replay_example =
    run-replay parsers "me" 10 30 empty_new history (run parsers empty history).made (λ id. refl)

after_history : Dict.lookup "a1" (run parsers empty history).devices ≡ some (observed laptop 21)
unfolding run step upsert store_observed is_valid_device identity_conflicts metadata_changed sweep
    sweep_devices sweep_device Dict.lookup Dict.insert trim_space
after_history = refl

after_upsert :
    Dict.lookup "a1" (step parsers (run parsers empty history) (upserts laptop 25)).devices
    ≡ some (observed laptop 25)
unfolding run step upsert store_observed is_valid_device identity_conflicts metadata_changed sweep
    sweep_devices sweep_device Dict.lookup Dict.insert trim_space
after_upsert = refl

step-hint_pinned_example : (observed laptop 25).identity_hint ≡ (observed laptop 21).identity_hint
step-hint_pinned_example =
    step-hint_pinned parsers (run parsers empty history) (upserts laptop 25) "a1"
      run-new_registry-IsWellFormed_example after_history
      (λ e. ground (arith, (str_eq_iff "AB:CD" "").1 e)) after_upsert

sweep_exact_example :
    Dict.lookup "a1" (sweep (run parsers empty history) 35).devices
    ≡ some (lost (observed laptop 21))
unfolding run step upsert store_observed is_valid_device identity_conflicts metadata_changed sweep
    sweep_devices sweep_device Dict.lookup Dict.insert trim_space
sweep_exact_example =
    sweep_exact parsers (run parsers empty history) 35 "a1" run-new_registry-IsWellFormed_example
