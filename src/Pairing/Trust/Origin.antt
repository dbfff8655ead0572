-- ===== src/Pairing/Trust/Origin.antt =====
-- Where the trust in a device comes from, over every history of the pairing service
-- (backend/internal/pairing/service.go).
use sync_space.Base.{ℕ, String, none, some, List, [], ◌∷◌, ◌≡◌, refl, arith, string_eq, inl, inr}
use sync_space.Base.Dict
use mathlib.Core.Path.{subst}
use sync_space.Models.{Identity}
use sync_space.Pairing.Models.{TrustedDevice}
use sync_space.Pairing.Crypto.{Primitives}
use sync_space.Pairing.Sessions.{Service, Env, new_service}
use sync_space.Pairing.Service.Manage.{set_display_name}
use sync_space.Pairing.History.{
  Call, opens_request, opens_begin, accepts, hears_decision, receives_proof, step, run, IsAccept,
  IsConfirm, Some, renames, lists_trusted, lists_requests, requests_pairing, receives_begin,
  refreshes, rejects, removes, blocks,
}
use sync_space.Pairing.Trust.Justified.{Justified, IsGranted}
use sync_space.Pairing.Trust.Handlers.{
  request_pairing_check-Justified, apply_peer_decision-Justified,
}
use sync_space.Pairing.Trust.Answers.{
  accept_check-Justified, refresh_check-Justified, receive_proof-Justified,
}
use sync_space.Pairing.Trust.Opening.{
  request_pairing_finish-Justified, receive_begin_check-Justified, receive_begin_finish-Justified,
}
use sync_space.Pairing.Trust.Managing.{
  reject-Justified, requests-Justified, remove-Justified, set_blocked-Justified,
}
use sync_space.Pairing.Trust.Refreshing.{trusted_devices-Justified}

-- The call opens a session under a request, for a device and its key.
abbrev pub IsOpen : String → String → String → Service → Env × Call → Type 0
IsOpen id device_id public_key s (env, opens_request now peer draw (some response)) =
    (draw.request_id ≡ id) × (peer.id ≡ device_id) × (response.public_key ≡ public_key)
IsOpen id device_id public_key s (env, opens_begin now begin peer draw) =
    (begin.request_id ≡ id) × (begin.device_id ≡ device_id) × (begin.public_key ≡ public_key)
IsOpen id device_id public_key s _ = ⊥

-- One request of a history from a state on was opened for the device and its key, the user accepted
-- it, and the peer confirmed it.
abbrev pub IsAgreed : Primitives → Service → List (Env × Call) → String → TrustedDevice → Type 0
IsAgreed p s cs device_id row =
    (id : String) × Some p (IsAccept id) s cs
    × Some p (IsConfirm p id) s cs
    × Some p (IsOpen id device_id row.public_key) s cs

module _ (A C : String → Type 0) (O : String → String → String → Type 0) (p : Primitives) where
  step-Justified :
      (s : Service) (env : Env) (c : Call)
      → ((id : String) → IsAccept id s (env, c) → A id)
      → ((id : String) → IsConfirm p id s (env, c) → C id)
      → ((id device_id public_key : String)
          → IsOpen id device_id public_key s (env, c)
          → O id device_id public_key)
      → Justified A C O s
      → Justified A C O (step p s (env, c))
  unfolding step set_display_name
  step-Justified s env (renames name) a c o j = ground arith
  step-Justified s env lists_trusted a c o j = trusted_devices-Justified A C O p env s j
  step-Justified s env lists_requests a c o j = requests-Justified A C O p env s j
  step-Justified s env (requests_pairing device_id) a c o j =
      request_pairing_check-Justified A C O p env s device_id j
  step-Justified s env (opens_request now peer draw none) a c o j =
      request_pairing_finish-Justified A C O p now s peer draw none (λ r e. cc) j
  step-Justified s env (opens_request now peer draw (some response)) a c o j =
      request_pairing_finish-Justified A C O p now s peer draw (some response)
        (λ r e. o draw.request_id peer.id r.public_key (refl, refl, ground (arith, e))) j
  step-Justified s env (receives_begin begin host) a c o j =
      receive_begin_check-Justified A C O p env s begin host j
  step-Justified s env (opens_begin now begin peer draw) a c o j =
      receive_begin_finish-Justified A C O p now s begin peer draw
        (o begin.request_id begin.device_id begin.public_key (refl, refl, refl)) j
  step-Justified s env (accepts id) a c o j =
      accept_check-Justified A C O p env s id
        (λ session found pending. a id (refl, (session, found, pending))) j
  step-Justified s env (refreshes id) a c o j = refresh_check-Justified A C O p env s id j
  step-Justified s env (hears_decision id decision) a c o j =
      apply_peer_decision-Justified A C O p env s id decision
        (λ session found (asked, genuine, says).
          c id (refl, says, asked, (session, found, genuine)))
        j
  step-Justified s env (receives_proof proof) a c o j =
      receive_proof-Justified A C O p env s proof
        (λ session found (says, device, genuine, new).
          c proof.request_id (refl, says, (session, found, (device, genuine, new))))
        j
  step-Justified s env (rejects id) a c o j = reject-Justified A C O p env s id j
  step-Justified s env (removes device_id) a c o j = remove-Justified A C O p env s device_id j
  step-Justified s env (blocks device_id is_blocked) a c o j =
      set_blocked-Justified A C O p env s device_id is_blocked j

  run-Justified :
      (s : Service) (cs : List (Env × Call))
      → ((id : String) → Some p (IsAccept id) s cs → A id)
      → ((id : String) → Some p (IsConfirm p id) s cs → C id)
      → ((id device_id public_key : String)
          → Some p (IsOpen id device_id public_key) s cs
          → O id device_id public_key)
      → Justified A C O s
      → Justified A C O (run p s cs)
  unfolding run
  run-Justified s [] a c o j = j
  run-Justified s ((env, call) ∷ cs) a c o j =
      run-Justified (step p s (env, call)) cs (λ id h. a id (inr h)) (λ id h. c id (inr h))
        (λ id d k h. o id d k (inr h))
        (step-Justified s env call (λ id h. a id (inl h)) (λ id h. c id (inl h))
          (λ id d k h. o id d k (inl h)) j)

-- In any history of a service with no trusted devices, each row of its table has a request that was
-- opened for the row's device and public key; that the user accepted while the service had it and it
-- was not rejected; and that the peer confirmed, by a proof or a decision that had, under the secret of
-- the session that the service had for the request, the right authentication code, and a proof also by
-- the session's device under a nonce that was new.
pub run-IsAgreed :
    (p : Primitives) (identity : Identity) (ttl : ℕ) (cs : List (Env × Call)) (device_id : String)
    (row : TrustedDevice)
    → Dict.lookup device_id (run p (new_service [] identity ttl) cs).store ≡ some row
    → IsAgreed p (new_service [] identity ttl) cs device_id row
unfolding new_service
run-IsAgreed p identity ttl cs device_id row e =
    let s = new_service [] identity ttl in
    let A : String → Type 0 = λ id. Some p (IsAccept id) s cs in
    let C : String → Type 0 = λ id. Some p (IsConfirm p id) s cs in
    let O : String → String → String → Type 0 = λ id d k. Some p (IsOpen id d k) s cs in
    let j =
      run-Justified A C O p s cs (λ id h. h) (λ id h. h) (λ id d k h. h)
        (record { sessions = tt; store = tt }) in
    let g = Dict.Every-lookup (IsGranted A C O) device_id _ j.store e in
    let (id, a, c, o) = g.grant in
    (id, a, c, subst (λ d. Some p (IsOpen id d row.public_key) s cs) g.keyed o)
