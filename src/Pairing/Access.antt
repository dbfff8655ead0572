-- ===== src/Pairing/Access.antt =====
-- What the table of trusted devices answers (backend/internal/pairing/service.go and
-- sqlite_store.go).
use sync_space.Base.{
  String, Bool, true, false, some, ◌≡◌, ◌*◌, ◌/◌, arith, string_eq, str_eq_iff, if◌then◌else◌, ◌==◌,
  Option-cases, inl, inr,
}
use sync_space.Base.Dict
use sync_space.Pairing.Models.{Bytes, TrustedDevice, blocked, ok, Outcome-cases}
use sync_space.Pairing.Crypto.{Primitives, of_length, decode_shared_key}
use sync_space.Pairing.Store
use sync_space.Pairing.Sessions.{Service, Env, decode_credential}
use sync_space.Pairing.Service.Manage.{
  is_trusted, shared_key, public_key, trusted_device, remove_trusted_device, set_blocked,
}

-- A device with its times cut down to the millisecond.
abbrev in_millis : TrustedDevice → TrustedDevice
in_millis d = record d {
  paired_at = d.paired_at / 1_000_000 * 1_000_000;
  last_seen = d.last_seen / 1_000_000 * 1_000_000;
  last_authenticated = d.last_authenticated / 1_000_000 * 1_000_000;
}

scan-to_row : (d : TrustedDevice) → Store.scan_trusted_device (Store.to_row d) ≡ in_millis d
unfolding Store.scan_trusted_device Store.to_row
scan-to_row d = ground arith

-- A saved device is read back with its times cut down to the millisecond, and every other device
-- is read as before.
pub get-upsert :
    (fails : Bool) (t : Store.Table) (d : TrustedDevice) (device_id : String) {t' : Store.Table}
    → Store.upsert fails t d ≡ some t'
    → Store.get false t' device_id
      ≡ (if d.device_id == device_id then ok (in_millis d) else Store.get false t device_id)
unfolding Store.get Store.upsert
get-upsert fails t d device_id e =
    ground (arith, e, scan-to_row d, Dict.lookup-insert d.device_id device_id (Store.to_row d) t)

-- A device that the service calls trusted has a shared key and a public key.
pub is_trusted-shared_key :
    (p : Primitives) (env : Env) (s : Service) (device_id : String)
    → is_trusted p env s device_id ≡ ok true
    → (key : Bytes) × (public : Bytes) × (shared_key p env s device_id ≡ ok key)
      × (public_key p env s device_id ≡ ok public)
unfolding is_trusted shared_key public_key decode_credential
is_trusted-shared_key p env s device_id e =
    elim (Outcome-cases (trusted_device p env s device_id)) [
      | inl refused ↦ ground (arith, refused, e)
      | inr (inl lost) ↦ ground (arith, lost, e)
      | inr (inr (d, found)) ↦ elim (Option-cases (of_length 32 (p.decode_base64 d.public_key))) [
        | inl unusable ↦ ground (arith, found, unusable, e)
        | inr (public, usable) ↦ elim (Option-cases (decode_shared_key p d.pairing_key)) [
          | inl secretless ↦ ground (arith, found, usable, secretless, e)
          | inr (key, secret) ↦ (
            key,
            public,
            ground (arith, found, usable, secret, e),
            ground (arith, found, usable, secret, e),
          )
        ]
      ]
    ]

-- Every row stands under its own device.
abbrev pub IsKeyed : Store.Table → Type 0
IsKeyed t = Dict.Every (λ device_id row. row.device_id ≡ device_id) t

-- A device that was just blocked is not trusted, if every row stands under its own device and the
-- database answers.
pub set_blocked-is_trusted :
    (p : Primitives) (env env' : Env) (s : Service) (device_id : String) {d : TrustedDevice}
    → IsKeyed s.store
    → (set_blocked p env s device_id true).0 ≡ ok d
    → env'.get_fails ≡ false
    → is_trusted p env' (set_blocked p env s device_id true).1 device_id ≡ ok false
unfolding set_blocked is_trusted trusted_device Store.get Store.upsert Store.scan_trusted_device
    Store.to_row
set_blocked-is_trusted p env env' s device_id k e f =
    elim (Option-cases (Dict.lookup device_id s.store)) [
      | inl missing ↦ ground (arith, missing, e)
      | inr (row, found) ↦
          let keyed =
            Dict.Every-lookup (λ id (row : TrustedDevice). row.device_id ≡ id) device_id s.store k
              found in
          let next : TrustedDevice = record (Store.scan_trusted_device row) {
            is_blocked = true;
            trust_state = blocked;
          } in
          ground (
            arith,
            found,
            keyed,
            e,
            f,
            str_eq_iff row.device_id device_id,
            Dict.lookup-insert row.device_id device_id (Store.to_row next) s.store,
          )
    ]

-- A device that was just removed is not trusted, if the database answers.
pub remove-is_trusted :
    (p : Primitives) (env env' : Env) (s : Service) (device_id : String) {d : TrustedDevice}
    → (remove_trusted_device p env s device_id).0 ≡ ok d
    → env'.get_fails ≡ false
    → is_trusted p env' (remove_trusted_device p env s device_id).1 device_id ≡ ok false
unfolding remove_trusted_device is_trusted trusted_device Store.get Store.delete
remove-is_trusted p env env' s device_id e f =
    ground (arith, e, f, Dict.lookup-erase_self device_id s.store)
