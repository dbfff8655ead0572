-- ===== src/Pairing/Answering.antt =====
-- What a session answers to a proof of the peer, and that the proof's nonce is used up
-- (backend/internal/pairing/service.go).
use sync_space.Base.{
  ℕ, String, Bool, Option, none, some, [], ◌∷◌, ◌≡◌, ◌⊎◌, arith, string_eq, str_eq_iff,
  if◌then◌else◌, ◌==◌, ◌&&◌, Option-cases, Bool-cases, inl, inr, refl,
}
use sync_space.Base.Dict
use sync_space.Base.Dict.{Dict}
use sync_space.Pairing.Models.{
  PeerDecision, Proof, Decision, Outcome, ok, err, nil_dereference, protocol,
}
use sync_space.Pairing.Crypto.{Primitives, verify_proof, valid_protocol_timestamp}
use sync_space.Pairing.Sessions.{
  Session, Service, Env, save_session, prune, prune_sessions, is_expired, finalize, finalized,
  trusted_of, protocol_max_skew,
}
use sync_space.Base.Int.{pos, int_eq}
use mathlib.Core.Path.{subst}
use sync_space.Pairing.Service.Exchange.{unix}
use sync_space.Pairing.Service.Confirm.{
  receive_proof, proof_session, act_on_proof, act, used, agreed, finish_proof,
}

abbrev is_checked : Primitives → Env → Proof → Bool
is_checked p env proof =
    proof.protocol_version == pos 1
    && p.is_uuid proof.request_id
    && p.is_uuid proof.device_id
    && valid_protocol_timestamp p proof.timestamp (unix env.now) (unix protocol_max_skew)

-- The nonce is used up in every session under the ID.
IsUsed : String → String → Service → Type 0
IsUsed id nonce s =
    (session : Session)
    → Dict.lookup id s.sessions ≡ some session
    → (seen : ℕ) × (Dict.lookup nonce session.last_proof_nonces ≡ some seen)

prune_sessions-lookup :
    (now : ℕ) (id : String) (sessions : Dict String Session) (pending : Dict String String)
    → Dict.Distinct sessions
    → (Dict.lookup id (prune_sessions now sessions pending).0 ≡ none)
      ⊎ (Dict.lookup id (prune_sessions now sessions pending).0 ≡ Dict.lookup id sessions)
unfolding prune_sessions Dict.lookup
prune_sessions-lookup now id [] pending h = inl refl
prune_sessions-lookup now id ((j, session) ∷ rest) pending h =
    let left =
      if is_expired now session then Dict.erase session.request.device_id pending else pending in
    let tail = prune_sessions-lookup now id rest left h.1 in
    ground (arith, str_eq_iff j id, h.0, tail)

finalize-nonces :
    (p : Primitives) (env : Env) (s : Service) (id : String) (session : Session)
    → Dict.lookup id s.sessions ≡ some session
    → (after : Session) → Dict.lookup id (finalize p env s id session).1.sessions ≡ some after
    → after.last_proof_nonces ≡ session.last_proof_nonces
unfolding finalize
finalize-nonces p env s id session h after e = ground (
  arith,
  h,
  e,
  Dict.lookup-insert_self id (finalized (trusted_of p env.now session) session) s.sessions,
)

finish_proof-state :
    (p : Primitives) (now : ℕ) (id : String) (session : Session) (end : Outcome Decision × Service)
    → (finish_proof p now id session end).1 ≡ end.1
finish_proof-state p now id session (ok d, s) = ground arith
finish_proof-state p now id session (err e, s) = refl
finish_proof-state p now id session (nil_dereference, s) = refl

act-nonces :
    (action : String) (session : Session) {next : Session}
    → act action session ≡ some next
    → next.last_proof_nonces ≡ session.last_proof_nonces
unfolding act
act-nonces action session e = ground arith

act_on_proof-nonces :
    (p : Primitives) (env : Env) (s : Service) (proof : Proof) (session : Session)
    → Dict.lookup proof.request_id s.sessions ≡ some session
    → (after : Session)
    → Dict.lookup proof.request_id (act_on_proof p env s proof session).1.sessions ≡ some after
    → after.last_proof_nonces ≡ session.last_proof_nonces
unfolding act_on_proof
act_on_proof-nonces p env s proof session h after e =
    elim (Option-cases (act proof.action session)) [
      | inl unknown ↦ ground (arith, unknown, h, e)
      | inr (next, acted) ↦
          let id = proof.request_id in
          let s' = save_session s id next in
          let kept = act-nonces proof.action session acted in
          let saved = Dict.lookup-insert_self id next s.sessions in
          let state = finish_proof-state p env.now id next (finalize p env s' id next) in
          elim (Bool-cases (agreed next)) [
            | inr t ↦ ground (arith, acted, t, e, kept, saved)
            | inl t ↦
                let final : Dict.lookup id (finalize p env s' id next).1.sessions ≡ some after =
                  ground (arith, acted, t, e, state) in
                let same = finalize-nonces p env s' id next saved after final in
                ground (arith, same, kept)
          ]
    ]

proof_session-IsUsed :
    (p : Primitives) (env : Env) (s : Service) (proof : Proof) (found : Option Session)
    → ((proof_session p env s proof found).0 ≡ err protocol)
      ⊎ IsUsed proof.request_id proof.nonce (proof_session p env s proof found).1
unfolding proof_session IsUsed
proof_session-IsUsed p env s proof none = inl refl
proof_session-IsUsed p env s proof (some session) =
    let id = proof.request_id in
    let fresh = used proof.nonce env.now session in
    let saved = Dict.lookup-insert_self id fresh s.sessions in
    let marked = Dict.lookup-insert_self proof.nonce env.now session.last_proof_nonces in
    elim (Bool-cases
      (session.request.device_id == proof.device_id && verify_proof p session.secret proof)) [
        | inr bad ↦ inl (ground (arith, bad))
        | inl good ↦ elim (Option-cases (Dict.lookup proof.nonce session.last_proof_nonces)) [
          | inr (seen, again) ↦ inl (ground (arith, again))
          | inl first ↦ inr (λ after e.
              let same =
                act_on_proof-nonces p env (save_session s id fresh) proof fresh saved after
                  (ground (arith, good, first, e)) in
              (env.now, ground (arith, same, marked)))
        ]
      ]

receive_proof-IsUsed :
    (p : Primitives) (env : Env) (s : Service) (proof : Proof)
    → ((receive_proof p env s proof).0 ≡ err protocol)
      ⊎ IsUsed proof.request_id proof.nonce (receive_proof p env s proof).1
unfolding receive_proof
receive_proof-IsUsed p env s proof =
    let pruned = prune env.now s in
    elim (Bool-cases (is_checked p env proof)) [
      | inr bad ↦ inl (ground (arith, bad))
      | inl good ↦
          subst
            (λ (end : Outcome PeerDecision × Service).
              (end.0 ≡ err protocol) ⊎ IsUsed proof.request_id proof.nonce end.1)
            (ground (arith, good))
            (proof_session-IsUsed p env pruned proof (Dict.lookup proof.request_id pruned.sessions))
    ]

receive_proof-refused :
    (p : Primitives) (env : Env) (s : Service) (proof : Proof)
    → Dict.Distinct s.sessions
    → IsUsed proof.request_id proof.nonce s
    → (receive_proof p env s proof).0 ≡ err protocol
unfolding receive_proof proof_session prune IsUsed
receive_proof-refused p env s proof h u =
    let left = prune_sessions env.now s.sessions s.pending_by_device in
    let same = prune_sessions-lookup env.now proof.request_id s.sessions s.pending_by_device h in
    elim (Option-cases (Dict.lookup proof.request_id left.0)) [
      | inl gone ↦ ground (arith, gone)
      | inr (session, found) ↦
          let (seen, again) = u session (ground (arith, found, same)) in
          ground (arith, found, again)
    ]

-- A proof that was not refused uses its nonce up: the next proof for the same request with the
-- same nonce is refused, at any later time, if no request has two sessions.
pub receive_proof-once :
    (p : Primitives) (env env' : Env) (s : Service) (proof again : Proof)
    → Dict.Distinct (receive_proof p env s proof).1.sessions
    → again.request_id ≡ proof.request_id
    → again.nonce ≡ proof.nonce
    → ((receive_proof p env s proof).0 ≡ err protocol)
      ⊎ ((receive_proof p env' (receive_proof p env s proof).1 again).0 ≡ err protocol)
receive_proof-once p env env' s proof again h i n = elim (receive_proof-IsUsed p env s proof) [
  | inl refused ↦ inl refused
  | inr u ↦ inr (receive_proof-refused p env' (receive_proof p env s proof).1 again h (rw (i, n) u))
]
