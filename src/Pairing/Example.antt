-- ===== src/Pairing/Example.antt =====
-- A concrete exchange between two devices (backend/internal/pairing), with primitives whose keys and
-- codes are all zero.
use sync_space.Base.{
  ℕ, zero, suc, true, false, not, some, List, [], ◌∷◌, ◌==◌, nat_eq, string_eq, length,
  if◌then◌else◌, ◌^◌, ◌-◌,
}
use sync_space.Base.Int.{pos, negsuc}
use sync_space.Models.{Device, Identity, online}
use sync_space.Pairing.Models.{
  Bytes, BeginRequest, BeginResponse, Proof, PeerDecision, TrustedDevice, trusted, blocked,
  confirming, incoming, outgoing,
}
use sync_space.Pairing.Crypto.{Primitives}
use sync_space.Pairing.Service.Confirm.{accepted}
use sync_space.Pairing.Sessions.{Session, Service, Env, new_service}
use sync_space.Pairing.Service.Exchange.{Draw, new_session, opened}
use sync_space.Pairing.History.{Call, receives_begin, opens_begin, accepts, receives_proof}

abbrev pub zeros : ℕ → Bytes
zeros zero = []
zeros (suc n) = 0 ∷ zeros n

abbrev pub p : Primitives
p = record {
  is_uuid = λ s. not (s == "");
  parse_int = λ s. if s == "old" then some (negsuc (2 ^ 63 - 1000 - 1)) else some (pos 1000);
  format_int = λ n. "1000";
  decode_base64 = λ s. some (if s == "S" then zeros 64 else zeros 32);
  encode_base64 = λ bs. if length bs == 64 then "S" else "K";
  sha256 = λ bs. zeros 32;
  ed25519_sign = λ key bs. zeros 64;
  ed25519_verify = λ key bs signature. true;
  hmac_sha256 = λ key bs. zeros 32;
  x25519_public = λ key. zeros 32;
  x25519_ecdh = λ key remote. some (zeros 32);
  hkdf_sha256 = λ secret salt info n. some (zeros n);
  marshal_begin_request = λ value. [];
  marshal_begin_response = λ value. [];
  marshal_proof = λ value. [];
  marshal_peer_decision = λ value. [];
}

abbrev pub time : ℕ
time = 1_000_000_000_000

abbrev pub peer : Device
peer = record {
  id = "a1";
  name = "laptop";
  hostname = "laptop.local";
  type = "desktop";
  platform = "linux";
  local_ip = "10.0.0.2";
  port = pos 8787;
  app_version = "1.0.0";
  last_seen = time;
  is_online = true;
  connection_state = online;
  available_storage = pos 10;
  transfer_capability = true;
  supported_protocol_version = pos 1;
  maximum_chunk_size = pos 1024;
  compression_support = false;
  identity_hint = "0000:0000:0000:0000";
  pairing_available = true;
}

abbrev pub identity : Identity
identity = record {
  id = "me";
  name = "desk";
  hostname = "desk.local";
  platform = "linux";
  public_key = "K";
  private_key = zeros 64;
}

abbrev pub env : Env
env = record {
  now = time;
  peers = peer ∷ [];
  get_fails = false;
  list_fails = false;
  delete_fails = false;
  upsert_fails = λ device_id. false;
}

abbrev pub begin : BeginRequest
begin = record {
  protocol_version = pos 1;
  request_id = "r1";
  device_id = "a1";
  device_name = "laptop";
  platform = "linux";
  public_key = "K";
  ephemeral_key = "K";
  timestamp = "1000";
  nonce = "n0";
  signature = "S";
}

abbrev pub draw : Draw
draw = record { request_id = "r1"; nonce = "n1"; ephemeral = some (zeros 32) }

abbrev pub confirm : Proof
confirm = record {
  protocol_version = pos 1;
  request_id = "r1";
  device_id = "a1";
  action = "confirm";
  timestamp = "1000";
  nonce = "n2";
  mac = "K";
}

abbrev pub calls : List (Env × Call)
calls =
    (env, receives_begin begin "10.0.0.2")
    ∷ (env, opens_begin time begin (peer, zeros 32) draw)
    ∷ (env, accepts "r1")
    ∷ (env, receives_proof confirm)
    ∷ []

abbrev pub row : TrustedDevice
row = record {
  device_id = "a1";
  device_name = "laptop";
  local_name = "";
  platform = "linux";
  public_key = "K";
  fingerprint = "0000:0000:0000:0000:0000:0000:0000:0000:0000:0000:0000:0000:0000:0000:0000:0000";
  pairing_key = "K";
  paired_at = 1_000_000;
  last_seen = 1_000_000;
  last_authenticated = 1_000_000;
  trust_state = trusted;
  is_blocked = false;
  identity_key_changed = false;
  notes = "";
}

abbrev pub answer : BeginResponse
answer = record {
  protocol_version = pos 1;
  request_id = "r1";
  device_id = "me";
  device_name = "desk";
  platform = "linux";
  public_key = "K";
  ephemeral_key = "K";
  timestamp = "1000";
  nonce = "n1";
  signature = "S";
}

-- A session with the laptop that the user has accepted, and services that hold it or its device.
abbrev pub session : Session
session = accepted (
    new_session
      (opened incoming p time 300_000_000_000 "r1" "a1" "laptop" "linux" (zeros 32) "000 000")
      (zeros 32) "K" peer answer)

abbrev pub ready : Service
ready = record (new_service [] identity 0) { sessions = ("r1", session) ∷ [] }

abbrev pub knowing : Service
knowing = record (new_service [] identity 0) { store = ("a1", row) ∷ [] }

abbrev pub far : Identity
far = record identity { id = "a1" }

-- The laptop opens the exchange with the desk, whose service answers; both are called "a1" here.
abbrev pub far_answer : BeginResponse
far_answer = record answer { device_id = "a1" }

abbrev pub theirs : Session
theirs =
    new_session
      (opened incoming p time 300_000_000_000 "r1" "me" "desk" "linux" (zeros 32) "000 000")
      (zeros 32) "K" peer far_answer

abbrev pub mine : Session
mine =
    new_session
      (opened outgoing p time 300_000_000_000 "r1" "a1" "desk" "linux" (zeros 32) "000 000")
      (zeros 32) "K" peer far_answer

abbrev pub blocked_row : TrustedDevice
blocked_row = record row {
  trust_state = blocked;
  is_blocked = true;
  paired_at = time;
  last_seen = time;
  last_authenticated = time;
}

abbrev pub decision : PeerDecision
decision = record {
  request_id = "r1";
  state = confirming;
  local_confirmed = true;
  remote_confirmed = false;
  timestamp = "1000";
  mac = "K";
}
