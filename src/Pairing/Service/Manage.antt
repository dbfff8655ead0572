-- ===== src/Pairing/Service/Manage.antt =====
-- The handlers of backend/internal/pairing/service.go over the table of trusted devices, and the
-- list of requests.
use sync_space.Base.{
  String, Bool, true, false, not, ◌&&◌, ◌||◌, Option, none, some, List, [], ◌∷◌, ltb, if◌then◌else◌,
  ◌==◌, string_eq, trim_space,
}
use sync_space.Base.Dict
use sync_space.Base.Dict.{Dict}
use sync_space.Models.{Device}
use sync_space.Pairing.Models.{
  Bytes, TrustedDevice, trusted, blocked, Request, trusted_device_removed, PairingError, Outcome,
  ok, err, nil_dereference, identity_changed, invalid_identifier, invalid_trusted_identity,
  invalid_shared_key, storage, is_paired, is_trusted_state,
}
use sync_space.Pairing.Crypto.{Primitives, of_length, decode_shared_key, short_fingerprint}
use sync_space.Pairing.Store
use sync_space.Pairing.Sessions.{Session, Service, Env, publish, prune, decode_credential}
use sync_space.Pairing.Service.Exchange.{is_not_found}

-- `SetDisplayName`
unfoldable pub set_display_name : Service → String → Service
set_display_name s name =
    let trimmed = trim_space name in
    if trimmed == "" then s else record s { identity = record (s.identity) { name = trimmed } }

-- The peers by ID; of two with one ID the later counts.
unfoldable pub peers_by_id : List Device → Dict String Device → Dict String Device
peers_by_id [] peers = peers
peers_by_id (d ∷ ds) peers = peers_by_id ds (Dict.insert d.id d peers)

abbrev pub has_error : Option PairingError → Bool
has_error none = false
has_error (some e) = true

-- One round of the loop of `TrustedDevices`: the device brought up to date, and whether it changed.
unfoldable pub refreshed : Primitives → Option Device → TrustedDevice → TrustedDevice × Bool
refreshed p found device =
    let unusable =
      device.public_key == ""
      || device.fingerprint == ""
      || has_error (decode_credential p device) in
    let checked = if unusable then record device { identity_key_changed = true } else device in
    elim found [
      | none ↦ (checked, unusable)
      | some peer ↦
          let newer = ltb checked.last_seen peer.last_seen in
          let seen = if newer then record checked { last_seen = peer.last_seen } else checked in
          let mismatch =
            not (peer.identity_hint == "")
            && not (seen.fingerprint == "")
            && not (short_fingerprint seen.fingerprint == peer.identity_hint) in
          (
            if mismatch then record seen { identity_key_changed = true } else seen,
            unusable || newer || mismatch,
          )
    ]

abbrev pub cons_device : TrustedDevice → Outcome (List TrustedDevice) → Outcome (List TrustedDevice)
cons_device d (ok ds) = ok (d ∷ ds)
cons_device d (err e) = err e
cons_device d nil_dereference = nil_dereference

-- The loop; a failing save ends it, and what is saved before stays saved.
unfoldable pub refresh_devices :
    Primitives
    → Env
    → Dict String Device
    → Store.Table
    → List TrustedDevice
    → Outcome (List TrustedDevice) × Store.Table
unfolding refreshed
refresh_devices p env peers t [] = (ok [], t)
refresh_devices p env peers t (device ∷ devices) =
    let (next, changed) = refreshed p (Dict.lookup device.device_id peers) device in
    elim (if changed then Store.upsert (env.upsert_fails next.device_id) t next else some t) [
      | none ↦ (err storage, t)
      | some t' ↦
          let (rest, final) = refresh_devices p env peers t' devices in
          (cons_device next rest, final)
    ]

unfoldable pub trusted_devices : Primitives → Env → Service → Outcome (List TrustedDevice) × Service
unfolding refresh_devices peers_by_id
trusted_devices p env s = elim (Store.list env.list_fails s.store) [
  | err e ↦ (err e, s)
  | nil_dereference ↦ (nil_dereference, s)
  | ok devices ↦
      let (outcome, store) = refresh_devices p env (peers_by_id env.peers []) s.store devices in
      (outcome, record s { store = store })
]

unfoldable pub open_requests : Dict String Session → List Request
open_requests [] = []
open_requests ((id, session) ∷ sessions) =
    let rest = open_requests sessions in
    if is_paired session.request.state then rest else session.request ∷ rest

-- `Requests`
unfoldable pub requests : Env → Service → List Request × Service
unfolding open_requests
requests env s = let pruned = prune env.now s in (open_requests pruned.sessions, pruned)

-- `trusted`
unfoldable pub trusted_device : Primitives → Env → Service → String → Outcome TrustedDevice
trusted_device p env s device_id =
    if not (p.is_uuid device_id)
    then err invalid_identifier
    else Store.get env.get_fails s.store device_id

unfoldable pub is_trusted : Primitives → Env → Service → String → Outcome Bool
unfolding trusted_device
is_trusted p env s device_id = elim (trusted_device p env s device_id) [
  | nil_dereference ↦ nil_dereference
  | err e ↦ if is_not_found e then ok false else err e
  | ok device ↦ ok (
      not device.is_blocked
      && not device.identity_key_changed
      && is_trusted_state device.trust_state
      && not (has_error (decode_credential p device)))
]

abbrev pub or_fail : PairingError → Option Bytes → Outcome Bytes
or_fail e none = err e
or_fail e (some bs) = ok bs

unfoldable pub shared_key : Primitives → Env → Service → String → Outcome Bytes
unfolding trusted_device
shared_key p env s device_id = elim (trusted_device p env s device_id) [
  | nil_dereference ↦ nil_dereference
  | err e ↦ err e
  | ok device ↦
      if device.is_blocked
        || device.identity_key_changed
        || not (is_trusted_state device.trust_state)
      then err identity_changed
      else or_fail invalid_shared_key (decode_shared_key p device.pairing_key)
]

unfoldable pub public_key : Primitives → Env → Service → String → Outcome Bytes
unfolding trusted_device
public_key p env s device_id = elim (trusted_device p env s device_id) [
  | nil_dereference ↦ nil_dereference
  | err e ↦ err e
  | ok device ↦
      if device.is_blocked || device.identity_key_changed
      then err identity_changed
      else or_fail invalid_trusted_identity (of_length 32 (p.decode_base64 device.public_key))
]

unfoldable pub remove_trusted_device :
    Primitives → Env → Service → String → Outcome TrustedDevice × Service
remove_trusted_device p env s device_id =
    if not (p.is_uuid device_id)
    then (err invalid_identifier, s)
    else let (outcome, store) = Store.delete env.delete_fails s.store device_id in
      elim outcome [
        | nil_dereference ↦ (nil_dereference, s)
        | err e ↦ (err e, s)
        | ok device ↦ (
          ok device,
          publish (record s { store = store }) (trusted_device_removed device env.now),
        )
      ]

unfoldable pub set_blocked :
    Primitives → Env → Service → String → Bool → Outcome TrustedDevice × Service
set_blocked p env s device_id is_blocked =
    if not (p.is_uuid device_id)
    then (err invalid_identifier, s)
    else elim (Store.get env.get_fails s.store device_id) [
      | nil_dereference ↦ (nil_dereference, s)
      | err e ↦ (err e, s)
      | ok device ↦
          let next = record device {
            is_blocked = is_blocked;
            trust_state = if is_blocked then blocked else trusted;
          } in
          elim (Store.upsert (env.upsert_fails device_id) s.store next) [
            | none ↦ (err storage, s)
            | some store ↦ (ok next, record s { store = store })
          ]
    ]
