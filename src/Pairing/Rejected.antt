-- ===== src/Pairing/Rejected.antt =====
-- A confirmation of the peer that comes after the user's rejection
-- (backend/internal/pairing/service.go).
use sync_space.Base.{String, true, false, none, some, ◌≡◌, arith, string_eq, str_eq_iff, refl}
use sync_space.Base.Dict
use sync_space.Pairing.Models.{PeerDecision, TrustedDevice, trusted, is_rejected, rejected}
use sync_space.Pairing.Crypto.{Primitives, verify_decision}
use sync_space.Pairing.Sessions.{
  Session, Service, Env, save_session, prune, finalize, decided, apply_decision,
  apply_peer_decision, trusted_of, validate_trusted_device,
}
use sync_space.Pairing.Store
use sync_space.Pairing.Service.Confirm.{reject, reject_session}

abbrev pub turned : Session → Session
turned session = record session { request = record (session.request) { state = rejected } }

reject-finalizes :
    (p : Primitives) (env env' : Env) (s : Service) (id : String) (decision : PeerDecision)
    (session : Session)
    → p.is_uuid id ≡ true
    → Dict.lookup id (prune env.now s).sessions ≡ some session
    → session.request.local_confirmed ≡ true
    → decision.request_id ≡ id
    → verify_decision p session.secret decision ≡ true
    → is_rejected decision.state ≡ false
    → decision.local_confirmed ≡ true
    → apply_peer_decision p env' (reject p env s id).1 id decision ≡ (
        let next = decided decision (turned session) in
        finalize p env' (save_session (reject p env s id).1 id next) id next)
unfolding reject reject_session apply_peer_decision apply_decision
reject-finalizes p env env' s id decision session u found l i v r c =
    let saved = Dict.lookup-insert_self id (turned session) (prune env.now s).sessions in
    ground (arith, u, found, l, i, v, r, c, saved, str_eq_iff decision.request_id id)

-- A session that the user had accepted and then rejects still makes its device trusted, if the peer's
-- verified confirmation comes after the rejection, the device's record is valid and the database takes
-- it: `applyPeerDecision` does not look at the session's state. The table then has the device, trusted
-- and not blocked, with the key of the rejected session.
pub reject-apply_peer_decision :
    (p : Primitives) (env env' : Env) (s : Service) (id : String) (decision : PeerDecision)
    (session : Session)
    → p.is_uuid id ≡ true
    → Dict.lookup id (prune env.now s).sessions ≡ some session
    → session.request.local_confirmed ≡ true
    → decision.request_id ≡ id
    → verify_decision p session.secret decision ≡ true
    → is_rejected decision.state ≡ false
    → decision.local_confirmed ≡ true
    → validate_trusted_device p (trusted_of p env'.now session) ≡ none
    → env'.upsert_fails session.request.device_id ≡ false
    → (row : TrustedDevice) × (Dict.lookup session.request.device_id
          (apply_peer_decision p env' (reject p env s id).1 id decision).1.store
        ≡ some row)
      × (row.trust_state ≡ trusted)
      × (row.is_blocked ≡ false)
      × (row.public_key ≡ session.remote_public_key)
unfolding finalize Store.upsert Store.to_row
reject-apply_peer_decision p env env' s id decision session u found l i v r c valid stored =
    let device = trusted_of p env'.now session in
    let row = Store.to_row device in
    let path = reject-finalizes p env env' s id decision session u found l i v r c in
    let saved = Dict.lookup-insert_self device.device_id row (reject p env s id).1.store in
    (row, ground (arith, path, valid, stored, saved), refl, refl, refl)
