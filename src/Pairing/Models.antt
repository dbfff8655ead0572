-- ===== src/Pairing/Models.antt =====
-- backend/internal/pairing/models.go, events.go, and the errors of service.go and store.go.
use sync_space.Base.{ℕ, String, Bool, true, false, List, Option, ◌≡◌, ◌⊎◌, inl, inr, refl}
use sync_space.Base.Int.{ℤ}

abbrev pub Bytes : Type 0
Bytes = List ℕ

pub data TrustState : Type 0 where
  trusted blocked : TrustState

pub data RequestState : Type 0 where
  pending confirming paired rejected expired : RequestState

abbrev pub is_paired : RequestState → Bool
is_paired paired = true
is_paired _ = false

abbrev pub is_rejected : RequestState → Bool
is_rejected rejected = true
is_rejected _ = false

abbrev pub is_pending : RequestState → Bool
is_pending pending = true
is_pending _ = false

abbrev pub is_trusted_state : TrustState → Bool
is_trusted_state trusted = true
is_trusted_state blocked = false

pub data RequestDirection : Type 0 where
  incoming outgoing : RequestDirection

abbrev pub is_incoming : RequestDirection → Bool
is_incoming incoming = true
is_incoming outgoing = false

pub record TrustedDevice : Type 0 where
  pub device_id : String
  pub device_name : String
  pub local_name : String
  pub platform : String
  pub public_key : String
  pub fingerprint : String
  pub pairing_key : String
  pub paired_at : ℕ
  pub last_seen : ℕ
  pub last_authenticated : ℕ
  pub trust_state : TrustState
  pub is_blocked : Bool
  pub identity_key_changed : Bool
  pub notes : String

pub record Request : Type 0 where
  pub request_id : String
  pub device_id : String
  pub device_name : String
  pub platform : String
  pub direction : RequestDirection
  pub fingerprint : String
  pub verification_code : String
  pub requested_at : ℕ
  pub expires_at : ℕ
  pub state : RequestState
  pub local_confirmed : Bool
  pub remote_confirmed : Bool

pub record Decision : Type 0 where
  pub request : Request
  pub trusted_device : Option TrustedDevice

pub record BeginRequest : Type 0 where
  pub protocol_version : ℤ
  pub request_id : String
  pub device_id : String
  pub device_name : String
  pub platform : String
  pub public_key : String
  pub ephemeral_key : String
  pub timestamp : String
  pub nonce : String
  pub signature : String

pub record BeginResponse : Type 0 where
  pub protocol_version : ℤ
  pub request_id : String
  pub device_id : String
  pub device_name : String
  pub platform : String
  pub public_key : String
  pub ephemeral_key : String
  pub timestamp : String
  pub nonce : String
  pub signature : String

pub record Proof : Type 0 where
  pub protocol_version : ℤ
  pub request_id : String
  pub device_id : String
  pub action : String
  pub timestamp : String
  pub nonce : String
  pub mac : String

pub record PeerDecision : Type 0 where
  pub request_id : String
  pub state : RequestState
  pub local_confirmed : Bool
  pub remote_confirmed : Bool
  pub timestamp : String
  pub mac : String

pub data Event : Type 0 where
  pairing_requested : Request → ℕ → Event
  pairing_accepted : TrustedDevice → ℕ → Event
  pairing_rejected : Request → ℕ → Event
  trusted_device_removed : TrustedDevice → ℕ → Event

-- `storage`, `transport` and `key_exchange` stand for errors of the database, of the peer
-- transport, and of X25519 and HKDF.
pub data PairingError : Type 0 where
  peer_not_discovered already_trusted request_not_found invalid_identifier protocol : PairingError
  identity_changed pairing_rate_limit trusted_device_not_found invalid_trusted_identity :
      PairingError
  invalid_shared_key invalid_trusted_device storage transport key_exchange : PairingError

-- `nil_dereference` is Go's panic on a missing session.
pub data Outcome (A : Type 0) : Type 0 where
  ok : A → Outcome A
  err : PairingError → Outcome A
  nil_dereference : Outcome A

pub Outcome-cases :
    {A : Type 0} (o : Outcome A)
    → (o ≡ nil_dereference) ⊎ ((e : PairingError) × (o ≡ err e)) ⊎ ((a : A) × (o ≡ ok a))
Outcome-cases nil_dereference = inl refl
Outcome-cases (err e) = inr (inl (e, refl))
Outcome-cases (ok a) = inr (inr (a, refl))
