-- ===== src/Pairing/Sessions.antt =====
-- The state of backend/internal/pairing/service.go and the steps that its handlers share. A session
-- is named by its key in the map, so a change through the `*pairingSession` pointer is a write to
-- that entry. The mutex makes each critical section one step; `Env` is what it reads of the outside.
use Prim.Native.String.{len}
use sync_space.Base.{
  ℕ, String, Bool, true, false, not, ◌&&◌, ◌||◌, Option, none, some, List, [], ◌∷◌, ◌++◌, ◌+◌, ◌*◌,
  ltb, if◌then◌else◌, ◌==◌, nat_eq, string_eq, is_blank,
}
use sync_space.Base.Dict
use sync_space.Base.Dict.{Dict}
use sync_space.Models.{Device, Identity}
use sync_space.Pairing.Models.{
  Bytes, TrustedDevice, Request, Decision, BeginResponse, PeerDecision, Event, pairing_accepted,
  PairingError, Outcome, ok, err, invalid_identifier, protocol, invalid_trusted_identity,
  invalid_shared_key, invalid_trusted_device, storage, trusted, confirming, paired, rejected,
  is_rejected,
}
use sync_space.Pairing.Crypto.{
  Primitives, of_length, identity_fingerprint, decode_shared_key, verify_decision,
}
use sync_space.Pairing.Store
use sync_space.Pairing.Store.{Table}

pub record Session : Type 0 where
  pub request : Request
  pub secret : Bytes
  pub remote_public_key : String
  pub peer : Device
  pub response : BeginResponse
  pub last_proof_nonces : Dict String ℕ
  pub trusted : Option TrustedDevice

pub record Service : Type 0 where
  pub sessions : Dict String Session
  pub pending_by_device : Dict String String
  pub recent_begins : Dict String ℕ
  pub last_begin_by_host : Dict String ℕ
  pub store : Table
  pub identity : Identity
  pub request_ttl : ℕ
  pub published : List Event

-- The clock, the peer directory, and which database calls fail.
pub record Env : Type 0 where
  pub now : ℕ
  pub peers : List Device
  pub get_fails : Bool
  pub list_fails : Bool
  pub delete_fails : Bool
  pub upsert_fails : String → Bool

abbrev pub second : ℕ
second = 1_000_000_000

abbrev pub default_request_ttl : ℕ
default_request_ttl = 5 * 60 * second

abbrev pub protocol_max_skew : ℕ
protocol_max_skew = 2 * 60 * second

abbrev pub pairing_cooldown : ℕ
pairing_cooldown = 2 * second

abbrev pub max_pending : ℕ
max_pending = 32

-- `NewService` after its checks of the configuration; a lifetime of zero takes the default.
unfoldable pub new_service : Table → Identity → ℕ → Service
new_service store identity request_ttl = record {
  sessions = [];
  pending_by_device = [];
  recent_begins = [];
  last_begin_by_host = [];
  store = store;
  identity = identity;
  request_ttl = if ltb 0 request_ttl then request_ttl else default_request_ttl;
  published = [];
}

abbrev pub publish : Service → Event → Service
publish s event = record s { published = s.published ++ event ∷ [] }

abbrev pub save_session : Service → String → Session → Service
save_session s id session = record s { sessions = Dict.insert id session s.sessions }

unfoldable pub find_online_peer : List Device → String → Option Device
find_online_peer [] device_id = none
find_online_peer (d ∷ ds) device_id =
    if d.id == device_id && d.is_online then some d else find_online_peer ds device_id

abbrev pub is_expired : ℕ → Session → Bool
is_expired now session = ltb session.request.expires_at now

-- The first loop of `pruneLocked`.
unfoldable pub prune_sessions :
    ℕ → Dict String Session → Dict String String → Dict String Session × Dict String String
prune_sessions now [] pending = ([], pending)
prune_sessions now ((id, session) ∷ rest) pending =
    let gone = is_expired now session in
    let (kept, left) =
      prune_sessions now rest
        (if gone then Dict.erase session.request.device_id pending else pending) in
    (if gone then kept else (id, session) ∷ kept, left)

-- The second one: `now.Sub(seen) > ttl`.
unfoldable pub prune_begins : ℕ → ℕ → Dict String ℕ → Dict String ℕ
prune_begins now ttl [] = []
prune_begins now ttl ((id, seen) ∷ rest) =
    let kept = prune_begins now ttl rest in if ltb (seen + ttl) now then kept else (id, seen) ∷ kept

unfoldable pub prune : ℕ → Service → Service
unfolding prune_sessions prune_begins
prune now s =
    let (sessions, pending) = prune_sessions now s.sessions s.pending_by_device in
    record s {
      sessions = sessions;
      pending_by_device = pending;
      recent_begins = prune_begins now s.request_ttl s.recent_begins;
    }

abbrev pub finalized : TrustedDevice → Session → Session
finalized device session = record session {
  request = record (session.request) {
    local_confirmed = true;
    remote_confirmed = true;
    state = paired;
  };
  trusted = some device;
}

-- The session as `applyPeerDecision` leaves it before it finalizes, and whether it does.
abbrev pub decided : PeerDecision → Session → Session
decided decision session = record session {
  request = record (session.request) { remote_confirmed = decision.local_confirmed };
}

abbrev pub with_state : Session → Session
with_state session = record session { request = record (session.request) { state = confirming } }

abbrev pub turned_down : Session → Session
turned_down session = record session { request = record (session.request) { state = rejected } }

abbrev pub answered : Service → String → Session → Outcome Decision × Service
answered s id final =
    (ok (record { request = final.request; trusted_device = none }), save_session s id final)

module _ (p : Primitives) where
  -- The decoded key, if the record's key and fingerprint belong together.
  abbrev pub pinned_key : TrustedDevice → Option Bytes
  pinned_key d = elim (of_length 32 (p.decode_base64 d.public_key)) [
    | none ↦ none
    | some key ↦ if d.fingerprint == identity_fingerprint p key then some key else none
  ]

  -- The error, if any, here and below.
  unfoldable pub decode_credential : TrustedDevice → Option PairingError
  decode_credential d = elim (pinned_key d) [
    | none ↦ some invalid_trusted_identity
    | some key ↦ elim (decode_shared_key p d.pairing_key) [
      | none ↦ some invalid_shared_key
      | some shared ↦ none
    ]
  ]

  unfoldable pub validate_trusted_device : TrustedDevice → Option PairingError
  unfolding decode_credential
  validate_trusted_device d =
      if not (p.is_uuid d.device_id) then some invalid_identifier else elim (decode_credential d) [
        | some e ↦ some e
        | none ↦
            if is_blank d.device_name
              || ltb 128 (len d.device_name)
              || is_blank d.platform
              || ltb 32 (len d.platform)
              || d.paired_at == 0
              || d.last_seen == 0
            then some invalid_trusted_device
            else none
      ]

  -- The record that `finalizeLocked` builds of a session.
  abbrev pub trusted_of : ℕ → Session → TrustedDevice
  trusted_of now session = record {
    device_id = session.request.device_id;
    device_name = session.request.device_name;
    local_name = "";
    platform = session.request.platform;
    public_key = session.remote_public_key;
    fingerprint = session.request.fingerprint;
    pairing_key = p.encode_base64 session.secret;
    paired_at = now;
    last_seen = session.peer.last_seen;
    last_authenticated = now;
    trust_state = trusted;
    is_blocked = false;
    identity_key_changed = false;
    notes = "";
  }

  -- `finalizeLocked` for the session under `id`.
  unfoldable pub finalize : Env → Service → String → Session → Outcome Decision × Service
  finalize env s id session =
      let device = trusted_of env.now session in
      elim (validate_trusted_device device) [
        | some e ↦ (err e, s)
        | none ↦ elim (Store.upsert (env.upsert_fails device.device_id) s.store device) [
          | none ↦ (err storage, s)
          | some store ↦
              let done = finalized device session in
              (
                ok (record { request = done.request; trusted_device = some device }),
                publish
                    (record s {
                      store = store;
                      sessions = Dict.insert id done s.sessions;
                      pending_by_device = Dict.erase device.device_id s.pending_by_device;
                    })
                    (pairing_accepted device env.now),
              )
        ]
      ]

  unfoldable pub apply_decision :
      Env → Service → String → PeerDecision → Option Session → Outcome Decision × Service
  apply_decision env s id decision none = (err protocol, s)
  apply_decision env s id decision (some session) =
      let next = decided decision session in
      if not (decision.request_id == id) || not (verify_decision p session.secret decision)
      then (err protocol, s)
      else if is_rejected decision.state
      then answered s id (turned_down next)
      else if next.request.local_confirmed && next.request.remote_confirmed
      then finalize env (save_session s id next) id next
      else answered s id (with_state next)

  unfoldable pub apply_peer_decision :
      Env → Service → String → PeerDecision → Outcome Decision × Service
  unfolding apply_decision
  apply_peer_decision env s id decision =
      apply_decision env s id decision (Dict.lookup id s.sessions)
