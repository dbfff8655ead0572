-- ===== src/Pairing/Tests.antt =====
-- The properties of the pairing service at a concrete exchange (backend/internal/pairing).
use sync_space.Pairing.Expiry.{accept_check-expired}
use sync_space.Base.{◌*◌}
use sync_space.Pairing.Service.Exchange.{done}
use sync_space.Pairing.Models.{TrustedDevice, request_not_found}
use sync_space.Base.{three_digits}
use sync_space.Base.{
  true, false, some, [], ◌∷◌, ◌≡◌, ◌⊎◌, refl, nat_eq, string_eq, trim_space, arith, split, join,
  hex_byte,
}
use sync_space.Base.Dict
use sync_space.Base.Int.{wrap64, ◌-ℤ◌}
use sync_space.Pairing.Models.{Bytes, trusted, ok, err, protocol}
use sync_space.Pairing.Crypto.{
  valid_protocol_timestamp, verify_request, verify_signature, identity_fingerprint,
  fingerprint_groups, short_fingerprint, verify_proof, proof_mac, decode_shared_key, new_ephemeral,
  derive_pairing, verification_code, big_endian, sign_response, sign_request, verify_response,
  verify_decision, decision_mac,
}
use sync_space.Pairing.Store
use sync_space.Pairing.Service.Receive.{
  receive_begin_check, receive_begin_finish, begin_pruned, begin_locked, receive_exchange,
}
use sync_space.Pairing.Service.Confirm.{
  reject, accept_check, receive_proof, accept_session, proof_session, act_on_proof, act,
}
use sync_space.Pairing.Sessions.{
  new_service, finalize, validate_trusted_device, decode_credential, prune, prune_sessions,
  prune_begins, find_online_peer, apply_peer_decision,
}
use sync_space.Pairing.History.{run, step}
use sync_space.Pairing.Service.Begin.{begin_request, request_exchange, validate_begin_response}
use sync_space.Pairing.Service.Manage.{
  is_trusted, shared_key, public_key, set_blocked, remove_trusted_device,
}
use sync_space.Pairing.Agreement.{exchange-agree}
use sync_space.Pairing.Access.{is_trusted-shared_key, get-upsert}
use sync_space.Pairing.Answering.{receive_proof-once}
use sync_space.Pairing.Rejected.{reject-apply_peer_decision}
use sync_space.Pairing.Timestamps.{valid_protocol_timestamp-least}
use sync_space.Pairing.Trust.Origin.{IsAgreed, run-IsAgreed}
use sync_space.Pairing.Example.{
  zeros, p, time, peer, identity, env, draw, confirm, calls, row, session, ready, knowing, far,
  far_answer, theirs, mine, blocked_row, decision,
}

stored : Dict.lookup "a1" (run p (new_service [] identity 0) calls).store ≡ some row
unfolding run step receive_begin_check receive_begin_finish accept_check receive_proof new_service
    Dict.lookup Dict.insert Dict.erase begin_pruned begin_locked receive_exchange accept_session
    proof_session act_on_proof act finalize validate_trusted_device decode_credential prune
    prune_sessions prune_begins find_online_peer valid_protocol_timestamp verify_request
    verify_signature identity_fingerprint fingerprint_groups short_fingerprint verify_proof
    proof_mac decode_shared_key new_ephemeral derive_pairing verification_code big_endian Store.get
    Store.upsert Store.to_row trim_space split join wrap64 ◌-ℤ◌ sign_response hex_byte
stored = refl

run-IsAgreed_example : IsAgreed p (new_service [] identity 0) calls "a1" row
run-IsAgreed_example = run-IsAgreed p identity 0 calls "a1" row stored

theirs_made :
    receive_exchange p time
      (new_service [] far 0)
      (begin_request p identity time draw (zeros 32))
      (peer, zeros 32)
      draw
    ≡ ok theirs
unfolding receive_exchange derive_pairing sign_request verification_code new_service sign_response
    three_digits new_ephemeral
theirs_made = refl

mine_made :
    request_exchange p time (new_service [] identity 0) peer draw (some far_answer) ≡ ok mine
unfolding request_exchange validate_begin_response sign_request valid_protocol_timestamp wrap64 ◌-ℤ◌
    verify_response short_fingerprint join split identity_fingerprint hex_byte derive_pairing
    verification_code new_service three_digits
mine_made = refl

exchange-agree_example :
    (mine.secret ≡ theirs.secret)
    × (mine.request.verification_code ≡ theirs.request.verification_code)
unfolding new_service
exchange-agree_example =
    exchange-agree p time time (new_service [] identity 0) (new_service [] far 0) peer peer
      (zeros 32) draw draw (zeros 32) (zeros 32) {mine = mine} {theirs = theirs}
      (record { decodes_a = refl; decodes_b = refl; shared = refl }) refl refl theirs_made mine_made

receive_proof-Distinct : Dict.Distinct (receive_proof p env ready confirm).1.sessions
unfolding receive_proof valid_protocol_timestamp wrap64 ◌-ℤ◌ Dict.lookup prune verify_proof
    proof_mac finalize validate_trusted_device identity_fingerprint join hex_byte decode_shared_key
    trim_space Store.upsert Dict.insert
receive_proof-Distinct = (refl, tt)

receive_proof-once_example :
    ((receive_proof p env ready confirm).0 ≡ err protocol)
    ⊎ ((receive_proof p env (receive_proof p env ready confirm).1 confirm).0 ≡ err protocol)
receive_proof-once_example =
    receive_proof-once p env env ready confirm confirm receive_proof-Distinct refl refl

knowing_trusted : is_trusted p env knowing "a1" ≡ ok true
unfolding is_trusted Store.get Dict.lookup Store.scan_trusted_device decode_credential
    identity_fingerprint join hex_byte decode_shared_key
knowing_trusted = refl

is_trusted-shared_key_example :
    (key : Bytes) × (public : Bytes) × (shared_key p env knowing "a1" ≡ ok key)
    × (public_key p env knowing "a1" ≡ ok public)
is_trusted-shared_key_example = is_trusted-shared_key p env knowing "a1" knowing_trusted

blocks_it : (set_blocked p env knowing "a1" true).0 ≡ ok blocked_row
unfolding set_blocked Store.get Dict.lookup Store.upsert Store.scan_trusted_device
blocks_it = refl

removes_it :
    (remove_trusted_device p env knowing "a1").0
    ≡ ok (record blocked_row { trust_state = trusted; is_blocked = false })
unfolding remove_trusted_device Store.delete Dict.lookup Store.scan_trusted_device
removes_it = refl

get-upsert_example : Store.get false (("a1", Store.to_row blocked_row) ∷ []) "a1" ≡ ok blocked_row
unfolding Store.to_row Store.upsert Dict.insert
get-upsert_example = get-upsert false [] blocked_row "a1" refl

valid_protocol_timestamp-least_example : valid_protocol_timestamp p "old" 1000 120 ≡ true
valid_protocol_timestamp-least_example =
    valid_protocol_timestamp-least p "old" 1000 120 (omega arith) (omega arith) refl

still_there : Dict.lookup "r1" (prune env.now ready).sessions ≡ some session
unfolding prune Dict.lookup
still_there = refl

decision_signed : verify_decision p (zeros 32) decision ≡ true
unfolding verify_decision decision_mac
decision_signed = refl

reject-apply_peer_decision_example :
    (row : TrustedDevice) × (Dict.lookup "a1"
        (apply_peer_decision p env (reject p env ready "r1").1 "r1" decision).1.store
      ≡ some row)
    × (row.trust_state ≡ trusted)
    × (row.is_blocked ≡ false)
    × (row.public_key ≡ session.remote_public_key)
unfolding validate_trusted_device identity_fingerprint join hex_byte decode_shared_key trim_space
reject-apply_peer_decision_example =
    reject-apply_peer_decision p env env ready "r1" decision session refl still_there refl refl
      decision_signed refl refl refl refl

ready-Distinct : Dict.Distinct ready.sessions
unfolding Dict.lookup
ready-Distinct = (refl, tt)

ready_session : Dict.lookup "r1" ready.sessions ≡ some session
unfolding Dict.lookup
ready_session = refl

accept_check-expired_example :
    (accept_check p (record env { now = 2 * time }) ready "r1").0 ≡ done (err request_not_found)
accept_check-expired_example =
    accept_check-expired p (record env { now = 2 * time }) ready "r1" session refl ready-Distinct
      ready_session (omega arith)
