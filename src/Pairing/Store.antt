-- ===== src/Pairing/Store.antt =====
-- backend/internal/pairing/sqlite_store.go: the table of trusted devices. A row holds a device with
-- its times in milliseconds. A call's first argument says whether the database fails it.
use Prim.Native.String.{compare}
use Prim.Native.Nat.{Ordering}
use sync_space.Base.{
  ℕ, String, Bool, true, false, Option, none, some, List, [], ◌∷◌, ◌*◌, ◌/◌, ltb, map,
  if◌then◌else◌, ◌==◌, nat_eq, string_eq,
}
use sync_space.Base.Dict
use sync_space.Base.Dict.{Dict}
use sync_space.Pairing.Models.{TrustedDevice, Outcome, ok, err, storage, trusted_device_not_found}

abbrev pub Table : Type 0
Table = Dict String TrustedDevice

-- `time.UnixMilli` and back
abbrev pub unix_milli : ℕ → ℕ
unix_milli t = t / 1_000_000

abbrev pub from_milli : ℕ → ℕ
from_milli ms = ms * 1_000_000

unfoldable pub to_row : TrustedDevice → TrustedDevice
to_row d = record d {
  paired_at = unix_milli d.paired_at;
  last_seen = unix_milli d.last_seen;
  last_authenticated = unix_milli d.last_authenticated;
}

unfoldable pub scan_trusted_device : TrustedDevice → TrustedDevice
scan_trusted_device row = record row {
  paired_at = from_milli row.paired_at;
  last_seen = from_milli row.last_seen;
  last_authenticated =
      if ltb 0 row.last_authenticated then from_milli row.last_authenticated else 0;
}

unfoldable pub get : Bool → Table → String → Outcome TrustedDevice
get fails t device_id = elim (Dict.lookup device_id t) [
  | none ↦ if fails then err storage else err trusted_device_not_found
  | some row ↦ if fails then err storage else ok (scan_trusted_device row)
]

unfoldable pub upsert : Bool → Table → TrustedDevice → Option Table
upsert fails t d = if fails then none else some (Dict.insert d.device_id (to_row d) t)

-- Read and deleted in one transaction.
unfoldable pub delete : Bool → Table → String → Outcome TrustedDevice × Table
delete fails t device_id = elim (Dict.lookup device_id t) [
  | none ↦ (if fails then err storage else err trusted_device_not_found, t)
  | some row ↦
      if fails then (err storage, t) else (ok (scan_trusted_device row), Dict.erase device_id t)
]

-- `ORDER BY paired_at ASC, device_id ASC`
abbrev before : TrustedDevice → TrustedDevice → Bool
before a b =
    if a.paired_at == b.paired_at
    then elim (compare a.device_id b.device_id) [ Ordering.lt ↦ true | _ ↦ false ]
    else ltb a.paired_at b.paired_at

unfoldable pub place : TrustedDevice → List TrustedDevice → List TrustedDevice
place d [] = d ∷ []
place d (e ∷ es) = if before e d then e ∷ place d es else d ∷ e ∷ es

unfoldable pub in_order : Table → List TrustedDevice
unfolding place
in_order [] = []
in_order ((id, row) ∷ t) = place row (in_order t)

unfoldable pub list : Bool → Table → Outcome (List TrustedDevice)
list fails t = if fails then err storage else ok (map scan_trusted_device (in_order t))
