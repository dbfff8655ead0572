-- ===== src/Pairing/History.antt =====
-- Histories of the pairing service (backend/internal/pairing/service.go): one call is one critical
-- section, so that any handlers may be interleaved, and each call brings what it reads of the
-- outside. A second section may be run at any time, with any answer of the peer.
use sync_space.Base.{
  ℕ, String, Bool, Option, List, [], ◌∷◌, ◌≡◌, ◌⊎◌, true, false, none, some, string_eq,
}
use sync_space.Base.Dict
use sync_space.Models.{Device}
use sync_space.Pairing.Models.{is_rejected, Bytes, BeginRequest, BeginResponse, Proof, PeerDecision}
use sync_space.Pairing.Crypto.{Primitives, verify_proof, verify_decision}
use sync_space.Pairing.Sessions.{Session, Service, Env, apply_peer_decision, prune}
use sync_space.Pairing.Service.Exchange.{Draw}
use sync_space.Pairing.Service.Begin.{request_pairing_check, request_pairing_finish}
use sync_space.Pairing.Service.Receive.{receive_begin_check, receive_begin_finish}
use sync_space.Pairing.Service.Confirm.{accept_check, refresh_check, receive_proof, reject}
use sync_space.Pairing.Service.Manage.{
  set_display_name, trusted_devices, requests, remove_trusted_device, set_blocked,
}

pub data Call : Type 0 where
  renames : String → Call
  lists_trusted : Call
  lists_requests : Call
  requests_pairing : String → Call
  opens_request : ℕ → Device → Draw → Option BeginResponse → Call
  receives_begin : BeginRequest → String → Call
  opens_begin : ℕ → BeginRequest → Device × Bytes → Draw → Call
  accepts : String → Call
  refreshes : String → Call
  hears_decision : String → PeerDecision → Call
  receives_proof : Proof → Call
  rejects : String → Call
  removes : String → Call
  blocks : String → Bool → Call

unfoldable pub step : Primitives → Service → Env × Call → Service
step p s (env, renames name) = set_display_name s name
step p s (env, lists_trusted) = (trusted_devices p env s).1
step p s (env, lists_requests) = (requests env s).1
step p s (env, requests_pairing device_id) = (request_pairing_check p env s device_id).1
step p s (env, opens_request now peer draw reply) =
    (request_pairing_finish p now s peer draw reply).1
step p s (env, receives_begin begin host) = (receive_begin_check p env s begin host).1
step p s (env, opens_begin now begin peer draw) = (receive_begin_finish p now s begin peer draw).1
step p s (env, accepts id) = (accept_check p env s id).1
step p s (env, refreshes id) = (refresh_check p env s id).1
step p s (env, hears_decision id decision) = (apply_peer_decision p env s id decision).1
step p s (env, receives_proof proof) = (receive_proof p env s proof).1
step p s (env, rejects id) = (reject p env s id).1
step p s (env, removes device_id) = (remove_trusted_device p env s device_id).1
step p s (env, blocks device_id is_blocked) = (set_blocked p env s device_id is_blocked).1

unfoldable pub run : Primitives → Service → List (Env × Call) → Service
run p s [] = s
run p s (c ∷ cs) = run p (step p s c) cs

-- A session that the service finds for a request.
abbrev pub Finds : Service → String → (Session → Type 0) → Type 0
Finds s id P = (session : Session) × (Dict.lookup id s.sessions ≡ some session) × P session

-- The call is the user's acceptance of a request that the service has and that is not rejected.
abbrev pub IsAccept : String → Service → Env × Call → Type 0
IsAccept id s (env, accepts id') =
    (id' ≡ id) × Finds (prune env.now s) id (λ session. is_rejected session.request.state ≡ false)
IsAccept id s _ = ⊥

-- A proof that says "confirm", of the session's device, with the session's own authentication code and
-- under a nonce that is new to the session.
abbrev pub IsProven : Primitives → Proof → Session → Type 0
IsProven p proof session =
    (session.request.device_id ≡ proof.device_id)
    × (verify_proof p session.secret proof ≡ true)
    × (Dict.lookup proof.nonce session.last_proof_nonces ≡ none)

-- The call brings the peer's confirmation of a request, authenticated with the session's secret: a
-- proof that says so, or a decision.
abbrev pub IsConfirm : Primitives → String → Service → Env × Call → Type 0
IsConfirm p id s (env, receives_proof proof) =
    (proof.request_id ≡ id)
    × (proof.action ≡ "confirm")
    × Finds (prune env.now s) id (IsProven p proof)
IsConfirm p id s (env, hears_decision id' decision) =
    (id' ≡ id)
    × (decision.local_confirmed ≡ true)
    × (decision.request_id ≡ id)
    × Finds s id (λ session. verify_decision p session.secret decision ≡ true)
IsConfirm p id s _ = ⊥

-- Some call of a history is such, in the state that the calls before it leave.
abbrev pub Some :
    Primitives → (Service → Env × Call → Type 0) → Service → List (Env × Call) → Type 0
Some p P s [] = ⊥
Some p P s (c ∷ cs) = P s c ⊎ Some p P (step p s c) cs
