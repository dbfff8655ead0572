-- ===== src/Pairing/Service/Confirm.antt =====
-- `Accept`, `Refresh`, `ReceiveProof` and `Reject` of backend/internal/pairing/service.go: the
-- confirmation of a session on both sides.
use sync_space.Base.{
  ℕ, String, Bool, true, false, not, ◌&&◌, ◌||◌, Option, none, some, if◌then◌else◌, ◌==◌, string_eq,
}
use sync_space.Base.Dict
use sync_space.Base.Int.{pos, int_eq}
use sync_space.Pairing.Models.{
  Bytes, Request, Decision, Proof, PeerDecision, pairing_requested, pairing_rejected, Outcome, ok,
  err, nil_dereference, request_not_found, invalid_identifier, protocol, transport, confirming,
  rejected, is_incoming, is_rejected, is_pending,
}
use sync_space.Pairing.Crypto.{
  Primitives, valid_protocol_timestamp, proof_mac, decision_mac, verify_proof,
}
use sync_space.Pairing.Sessions.{
  Session, Service, Env, publish, save_session, protocol_max_skew, prune, finalize,
  apply_peer_decision,
}
use sync_space.Pairing.Service.Exchange.{Check, done, proceed, unix}

unfoldable pub new_proof : Primitives → String → String → String → String → Bytes → ℕ → Proof
new_proof p device_id request_id action nonce secret now =
    let proof : Proof = record {
      protocol_version = pos 1;
      request_id = request_id;
      device_id = device_id;
      action = action;
      timestamp = p.format_int (unix now);
      nonce = nonce;
      mac = "";
    } in
    record proof { mac = proof_mac p secret proof }

abbrev pub decision_of : Session → Decision
decision_of session = record { request = session.request; trusted_device = none }

-- `session.request.LocalConfirmed = true; session.request.State = RequestStateConfirming`
abbrev pub accepted : Session → Session
accepted session = record session {
  request = record (session.request) { local_confirmed = true; state = confirming };
}

-- `Accept` after the pruning, at the entry of the map. It goes on with the session to confirm.
unfoldable pub accept_session :
    Primitives → Env → Service → String → Option Session → Check Decision Session × Service
accept_session p env s id none = (done (err request_not_found), s)
accept_session p env s id (some session) =
    let next = accepted session in
    let s' = save_session s id next in
    if is_rejected session.request.state
    then (done (ok (decision_of session)), s)
    else if is_incoming next.request.direction
    then if next.request.remote_confirmed
      then (let (outcome, t) = finalize p env s' id next in (done outcome, t))
      else (done (ok (decision_of next)), publish s' (pairing_requested next.request env.now))
    else (proceed next, s')

unfoldable pub accept_check : Primitives → Env → Service → String → Check Decision Session × Service
unfolding accept_session
accept_check p env s id =
    if not (p.is_uuid id)
    then (done (err invalid_identifier), s)
    else let pruned = prune env.now s in
      accept_session p env pruned id (Dict.lookup id pruned.sessions)

-- `transport.Proof` and `applyPeerDecision`, after `Accept` ("confirm") or `Refresh` ("status");
-- no answer where the transport fails.
unfoldable pub send_proof :
    Primitives
    → Env
    → Service
    → String
    → String
    → String
    → Session
    → (Proof → Option PeerDecision)
    → Outcome Decision × Service
send_proof p env s id action nonce session answer =
    elim (answer (new_proof p s.identity.id id action nonce session.secret env.now)) [
      | none ↦ (err transport, s)
      | some decision ↦ apply_peer_decision p env s id decision
    ]

unfoldable pub accept :
    Primitives
    → Env
    → Service
    → String
    → String
    → (Proof → Option PeerDecision)
    → Outcome Decision × Service
accept p env s id nonce answer =
    let (check, s') = accept_check p env s id in
    elim check [
      | done outcome ↦ (outcome, s')
      | proceed session ↦ send_proof p env s' id "confirm" nonce session answer
    ]

unfoldable pub refresh_session : Service → Option Session → Check Decision Session × Service
refresh_session s none = (done (err request_not_found), s)
refresh_session s (some session) = elim session.trusted [
  | some device ↦
      (done (ok (record { request = session.request; trusted_device = some device })), s)
  | none ↦
      if is_incoming session.request.direction || not session.request.local_confirmed
      then (done (ok (decision_of session)), s)
      else (proceed session, s)
]

unfoldable pub refresh_check :
    Primitives → Env → Service → String → Check Decision Session × Service
unfolding refresh_session
refresh_check p env s id =
    if not (p.is_uuid id)
    then (done (err invalid_identifier), s)
    else let pruned = prune env.now s in refresh_session pruned (Dict.lookup id pruned.sessions)

unfoldable pub refresh :
    Primitives
    → Env
    → Service
    → String
    → String
    → (Proof → Option PeerDecision)
    → Outcome Decision × Service
refresh p env s id nonce answer =
    let (check, s') = refresh_check p env s id in
    elim check [
      | done outcome ↦ (outcome, s')
      | proceed session ↦ send_proof p env s' id "status" nonce session answer
    ]

-- The `switch` on the action of a proof; none for an unknown one.
unfoldable pub act : String → Session → Option Session
act action session =
    let request = session.request in
    if action == "confirm"
    then some (record session {
      request = record request {
        remote_confirmed = true;
        state = if is_pending request.state then confirming else request.state;
      };
    })
    else if action == "reject"
    then some (record session { request = record request { state = rejected } })
    else if action == "status"
    then some session
    else none

abbrev pub peer_decision : Primitives → ℕ → String → Session → PeerDecision
peer_decision p now request_id session =
    let decision : PeerDecision = record {
      request_id = request_id;
      state = session.request.state;
      local_confirmed = session.request.local_confirmed;
      remote_confirmed = session.request.remote_confirmed;
      timestamp = p.format_int (unix now);
      mac = "";
    } in
    record decision { mac = decision_mac p session.secret decision }

-- `session.trusted == nil`
abbrev pub is_open : Session → Bool
is_open session = elim session.trusted [ none ↦ true | some device ↦ false ]

-- The session's answer once it is finalized or left, from its state in the map.
abbrev pub decide : Primitives → ℕ → String → Session → Service → Outcome PeerDecision × Service
decide p now id session s = elim (Dict.lookup id s.sessions) [
  | none ↦ (ok (peer_decision p now id session), s)
  | some final ↦ (ok (peer_decision p now id final), s)
]

abbrev pub finish_proof :
    Primitives → ℕ → String → Session → Outcome Decision × Service → Outcome PeerDecision × Service
finish_proof p now id session (ok decision, s) = decide p now id session s
finish_proof p now id session (err e, s) = (err e, s)
finish_proof p now id session (nil_dereference, s) = (nil_dereference, s)

-- The session with the proof's nonce used up.
abbrev pub used : String → ℕ → Session → Session
used nonce now session = record session {
  last_proof_nonces = Dict.insert nonce now session.last_proof_nonces;
}

abbrev pub agreed : Session → Bool
agreed session =
    session.request.local_confirmed
    && session.request.remote_confirmed
    && not (is_rejected session.request.state)
    && is_open session

-- `ReceiveProof` after the nonce is used up.
unfoldable pub act_on_proof :
    Primitives → Env → Service → Proof → Session → Outcome PeerDecision × Service
unfolding act
act_on_proof p env s proof session = elim (act proof.action session) [
  | none ↦ (err protocol, s)
  | some next ↦
      let s' = save_session s proof.request_id next in
      if agreed next
      then finish_proof p env.now proof.request_id next (finalize p env s' proof.request_id next)
      else decide p env.now proof.request_id next s'
]

unfoldable pub proof_session :
    Primitives → Env → Service → Proof → Option Session → Outcome PeerDecision × Service
unfolding act_on_proof
proof_session p env s proof none = (err protocol, s)
proof_session p env s proof (some session) =
    if not (session.request.device_id == proof.device_id)
      || not (verify_proof p session.secret proof)
    then (err protocol, s)
    else elim (Dict.lookup proof.nonce session.last_proof_nonces) [
      | some seen ↦ (err protocol, s)
      | none ↦
          let fresh = used proof.nonce env.now session in
          act_on_proof p env (save_session s proof.request_id fresh) proof fresh
    ]

unfoldable pub receive_proof : Primitives → Env → Service → Proof → Outcome PeerDecision × Service
unfolding proof_session
receive_proof p env s proof =
    if not (proof.protocol_version == pos 1)
      || not (p.is_uuid proof.request_id)
      || not (p.is_uuid proof.device_id)
      || not (valid_protocol_timestamp p proof.timestamp (unix env.now) (unix protocol_max_skew))
    then (err protocol, s)
    else let pruned = prune env.now s in
      proof_session p env pruned proof (Dict.lookup proof.request_id pruned.sessions)

-- `Reject`; what an outgoing request sends to the peer has no effect here, and its answer is
-- dropped.
unfoldable pub reject_session : Env → Service → String → Option Session → Outcome Request × Service
reject_session env s id none = (err request_not_found, s)
reject_session env s id (some session) =
    let next = record session { request = record (session.request) { state = rejected } } in
    (ok next.request, publish (save_session s id next) (pairing_rejected next.request env.now))

unfoldable pub reject : Primitives → Env → Service → String → Outcome Request × Service
unfolding reject_session
reject p env s id =
    if not (p.is_uuid id)
    then (err invalid_identifier, s)
    else let pruned = prune env.now s in
      reject_session env pruned id (Dict.lookup id pruned.sessions)
