-- ===== src/Pairing/Service/Exchange.antt =====
-- What both ends of the signed exchange of backend/internal/pairing/service.go share.
use sync_space.Base.{ℕ, String, Bool, true, false, Option, none, [], ◌+◌, ◌/◌, nat_eq, string_eq}
use sync_space.Base.Dict
use sync_space.Base.Int.{int_eq}
use sync_space.Models.{Device}
use sync_space.Pairing.Models.{
  Bytes, Request, RequestDirection, BeginResponse, PairingError, Outcome, trusted_device_not_found,
  pending,
}
use sync_space.Pairing.Crypto.{Primitives, identity_fingerprint}
use sync_space.Pairing.Sessions.{Session, Service, second}

-- The end of a handler, or what its next section goes on with.
pub data Check (A B : Type 0) : Type 0 where
  done : Outcome A → Check A B
  proceed : B → Check A B

-- What a call draws at random; no key where the generator fails.
pub record Draw : Type 0 where
  pub request_id : String
  pub nonce : String
  pub ephemeral : Option Bytes

abbrev pub is_not_found : PairingError → Bool
is_not_found trusted_device_not_found = true
is_not_found _ = false

abbrev pub unix : ℕ → ℕ
unix t = t / second

abbrev pub new_session : Request → Bytes → String → Device → BeginResponse → Session
new_session request secret remote_public_key peer response = record {
  request = request;
  secret = secret;
  remote_public_key = remote_public_key;
  peer = peer;
  response = response;
  last_proof_nonces = [];
  trusted = none;
}

-- `s.sessions[id] = session; s.pendingByDevice[device] = id`
abbrev pub open_session : Service → String → Session → Service
open_session s id session = record s {
  sessions = Dict.insert id session s.sessions;
  pending_by_device = Dict.insert session.request.device_id id s.pending_by_device;
}

abbrev pub opened :
    RequestDirection
    → Primitives
    → ℕ
    → ℕ
    → String
    → String
    → String
    → String
    → Bytes
    → String
    → Request
opened direction p now ttl request_id device_id device_name platform key code = record {
  request_id = request_id;
  device_id = device_id;
  device_name = device_name;
  platform = platform;
  direction = direction;
  fingerprint = identity_fingerprint p key;
  verification_code = code;
  requested_at = now;
  expires_at = now + ttl;
  state = pending;
  local_confirmed = false;
  remote_confirmed = false;
}
