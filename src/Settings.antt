-- ===== src/Settings.antt =====
-- backend/internal/settings/store.go: the user's settings. A file operation that fails is an argument
-- of the call; the file holds what the last save wrote, `filepath.IsAbs` is a parameter, and the
-- texts of errors are their kinds. A time of zero is Go's zero time.
pub mod Privacy
mod Tests
use Prim.Native.String.{len}
use sync_space.Base.{
  ℕ, String, Bool, true, false, not, ◌&&◌, ◌||◌, Option, none, some, List, [], ◌∷◌, ltb,
  if◌then◌else◌, ◌==◌, string_eq, nat_eq, is_blank, trim_space,
}
use sync_space.Base.Int.{ℤ, pos, int_eq, ltb_ℤ}

abbrev pub schema_version : ℤ
schema_version = pos 2

abbrev pub current_privacy_policy_version : String
current_privacy_policy_version = "2026-07-1"

pub record Values : Type 0 where
  pub schema_version : ℤ
  pub appearance : String
  pub reduced_motion : Bool
  pub default_download_directory : String
  pub conflict_policy : String
  pub notifications_enabled : Bool
  pub device_name : String
  pub discoverable : Bool
  pub incoming_transfers_enabled : Bool
  pub privacy_policy_version : String
  pub privacy_accepted_at : Option ℕ

-- `saved` is the content of the file; `changed` says whether a signal waits in the channel.
pub record Store : Type 0 where
  pub values : Values
  pub saved : Values
  pub changed : Bool

pub data SettingsError : Type 0 where
  unsupported_schema bad_appearance bad_conflict_policy relative_directory : SettingsError
  long_directory bad_device_name missing_acceptance stale_policy file_error : SettingsError

pub data Result (A : Type 0) : Type 0 where
  ok : A → Result A
  err : SettingsError → Result A

abbrev pub is_none : {A : Type 0} → Option A → Bool
is_none none = true
is_none (some a) = false

pub validate : (String → Bool) → Values → Option SettingsError
validate is_abs v =
    if not (v.schema_version == pos 0)
      && not (v.schema_version == pos 1)
      && not (v.schema_version == schema_version)
    then some unsupported_schema
    else if not (v.appearance == "system")
        && not (v.appearance == "light")
        && not (v.appearance == "dark")
    then some bad_appearance
    else if not (v.conflict_policy == "prompt")
        && not (v.conflict_policy == "rename")
        && not (v.conflict_policy == "overwrite")
    then some bad_conflict_policy
    else if not (v.default_download_directory == "") && not (is_abs v.default_download_directory)
    then some relative_directory
    else if ltb 4096 (len v.default_download_directory)
    then some long_directory
    else if ltb 128 (len v.device_name) || (not (v.device_name == "") && is_blank v.device_name)
    then some bad_device_name
    else if not (v.privacy_policy_version == "")
        && not (v.privacy_policy_version == current_privacy_policy_version)
        && is_none v.privacy_accepted_at
    then some missing_acceptance
    else none

pub migrate : Values → Values
migrate v =
    let old = ltb_ℤ v.schema_version (pos 2) in
    record v {
      discoverable = if old then true else v.discoverable;
      incoming_transfers_enabled = if old then true else v.incoming_transfers_enabled;
      notifications_enabled = if old then false else v.notifications_enabled;
      device_name = trim_space v.device_name;
      schema_version = schema_version;
    }

-- `Defaults`, from the directory under the user's home, empty where there is none.
unfoldable pub defaults : String → Values
defaults destination = record {
  schema_version = schema_version;
  appearance = "system";
  reduced_motion = false;
  default_download_directory = destination;
  conflict_policy = "rename";
  notifications_enabled = false;
  device_name = "";
  discoverable = true;
  incoming_transfers_enabled = true;
  privacy_policy_version = "";
  privacy_accepted_at = none;
}

-- What reading the file gives: no file, an error, or the decoded values.
pub data File : Type 0 where
  missing unreadable : File
  decoded : Values → File

pub load : (String → Bool) → String → File → Result Values
unfolding defaults
load is_abs destination missing = ok (defaults destination)
load is_abs destination unreadable = err file_error
load is_abs destination (decoded v) = elim (validate is_abs v) [ none ↦ ok v | some e ↦ err e ]

abbrev fresh : Values → Store
fresh v = record { values = v; saved = v; changed = false }

pub new_store : (String → Bool) → String → File → Bool → Result Store
unfolding load migrate
new_store is_abs destination file save_fails = elim (load is_abs destination file) [
  | err e ↦ err e
  | ok v ↦ if save_fails then err file_error else ok (fresh (migrate v))
]

abbrev put : Store → Values → Result Values × Store
put s v = (ok v, record s { values = v; saved = v; changed = true })

pub update : (String → Bool) → Store → Values → Bool → Result Values × Store
update is_abs s values save_fails =
    let v = record values { device_name = trim_space values.device_name } in
    elim (validate is_abs v) [
      | some e ↦ (err e, s)
      | none ↦
          if save_fails
          then (err file_error, s)
          else put s (record v {
            privacy_policy_version = s.values.privacy_policy_version;
            privacy_accepted_at = s.values.privacy_accepted_at;
            schema_version = schema_version;
          })
    ]

-- `now` is the clock, for a time of acceptance that is zero.
pub accept_privacy : Store → String → ℕ → ℕ → Bool → Result Values × Store
accept_privacy s version accepted_at now save_fails =
    if not (version == current_privacy_policy_version)
    then (err stale_policy, s)
    else if save_fails
    then (err file_error, s)
    else put s (record (s.values) {
      schema_version = schema_version;
      privacy_policy_version = version;
      privacy_accepted_at = some (if accepted_at == 0 then now else accepted_at);
    })

unfoldable pub privacy_accepted : Store → Bool
privacy_accepted s =
    not (is_none s.values.privacy_accepted_at)
    && s.values.privacy_policy_version == current_privacy_policy_version

-- What the program does with its store after `NewStore`. A receive from `Changes` takes the signal.
pub data Call : Type 0 where
  updates : Values → Bool → Call
  accepts : String → ℕ → ℕ → Bool → Call
  receives_change : Call

pub step : (String → Bool) → Store → Call → Store
step is_abs s (updates v save_fails) = (update is_abs s v save_fails).1
step is_abs s (accepts version at now save_fails) = (accept_privacy s version at now save_fails).1
step is_abs s receives_change = record s { changed = false }

pub run : (String → Bool) → Store → List Call → Store
run is_abs s [] = s
run is_abs s (c ∷ cs) = run is_abs (step is_abs s c) cs
