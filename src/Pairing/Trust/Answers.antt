-- ===== src/Pairing/Trust/Answers.antt =====
-- The justification through the confirmation of a session (backend/internal/pairing/service.go).
use sync_space.Base.{
  ℕ, String, true, Option, none, some, ◌≡◌, refl, arith, string_eq, str_eq_iff, Bool-cases,
  Option-cases, inl, inr, ◌==◌, ◌&&◌, and-eq-true, false,
}
use sync_space.Base.Dict
use sync_space.Base.Dict.{Dict}
use sync_space.Pairing.Models.{is_rejected, Proof, Decision, Outcome, ok, err, nil_dereference}
use sync_space.Pairing.Crypto.{Primitives, verify_proof}
use sync_space.Pairing.Sessions.{Session, Service, Env, prune, save_session, finalize}
use sync_space.Pairing.Service.Confirm.{
  accepted, accept_session, accept_check, refresh_session, refresh_check, act, used, agreed,
  act_on_proof, proof_session, receive_proof, finish_proof, decide,
}
use sync_space.Pairing.Trust.Justified.{
  IsJustified, Justified, prune-Justified, save-Justified, finalize-Justified,
}

module _ (A C : String → Type 0) (O : String → String → String → Type 0) (p : Primitives) where
  abbrev J : Service → Type 0
  J = Justified A C O

  accept_session-Justified :
      (env : Env) (s : Service) (id : String) (found : Option Session)
      → ((session : Session)
          → found ≡ some session
          → is_rejected session.request.state ≡ false
          → A id)
      → ((session : Session) → found ≡ some session → IsJustified A C O id session)
      → J s
      → J (accept_session p env s id found).1
  unfolding accept_session
  accept_session-Justified env s id none a h j = j
  accept_session-Justified env s id (some session) a h j =
      elim (Bool-cases (is_rejected session.request.state)) [
        | inl turned ↦ ground (arith, turned, j)
        | inr pending ↦
            let old = h session refl in
            let by_user = a session refl pending in
            let next = accepted session in
            let moved : IsJustified A C O id next = record {
              opened = old.opened;
              by_user = λ _. by_user;
              by_peer = old.by_peer;
            } in
            let saved = save-Justified A C O s id next j moved in
            elim (Bool-cases session.request.remote_confirmed) [
              | inl t ↦
                  let final =
                    finalize-Justified A C O p env (save_session s id next) id next saved moved
                      by_user (old.by_peer t) in
                  ground (arith, t, pending, final)
              | inr t ↦ ground (arith, t, pending)
            ]
      ]

  pub accept_check-Justified :
      (env : Env) (s : Service) (id : String)
      → ((session : Session)
          → Dict.lookup id (prune env.now s).sessions ≡ some session
          → is_rejected session.request.state ≡ false
          → A id)
      → J s
      → J (accept_check p env s id).1
  unfolding accept_check
  accept_check-Justified env s id a j =
      let pruned = prune-Justified A C O env.now s j in
      let next =
        accept_session-Justified env (prune env.now s) id
          (Dict.lookup id (prune env.now s).sessions) a
          (λ session found. Dict.Every-lookup (IsJustified A C O) id _ pruned.sessions found)
          pruned in
      ground arith

  pub refresh_check-Justified :
      (env : Env) (s : Service) (id : String) → J s → J (refresh_check p env s id).1
  unfolding refresh_check refresh_session
  refresh_check-Justified env s id j =
      let pruned = prune-Justified A C O env.now s j in ground arith

  -- What an action makes of a session; only "confirm" sets the peer's side.
  act-IsJustified :
      (id action : String) (session : Session)
      → (action ≡ "confirm" → C id)
      → IsJustified A C O id session
      → (next : Session) → act action session ≡ some next
      → IsJustified A C O id next
  unfolding act
  act-IsJustified id action session c old next e = elim (Bool-cases (action == "confirm")) [
    | inl t ↦
        let confirmed = c ((str_eq_iff action "confirm").0 t) in
        record {
          opened = ground arith;
          by_user = λ h. old.by_user (ground arith);
          by_peer = λ _. confirmed;
        }
    | inr t ↦ record {
      opened = ground arith;
      by_user = λ h. old.by_user (ground arith);
      by_peer = λ h. old.by_peer (ground arith);
    }
  ]

  decide-Justified :
      (now : ℕ) (id : String) (session : Session) (s : Service)
      → J s
      → J (decide p now id session s).1
  decide-Justified now id session s j = ground arith

  finish_proof-Justified :
      (now : ℕ) (id : String) (session : Session) (end : Outcome Decision × Service)
      → J end.1
      → J (finish_proof p now id session end).1
  finish_proof-Justified now id session (ok d, s) j = decide-Justified now id session s j
  finish_proof-Justified now id session (err e, s) j = j
  finish_proof-Justified now id session (nil_dereference, s) j = j

  act_on_proof-Justified :
      (env : Env) (s : Service) (proof : Proof) (session : Session)
      → (proof.action ≡ "confirm" → C proof.request_id)
      → IsJustified A C O proof.request_id session
      → J s
      → J (act_on_proof p env s proof session).1
  unfolding act_on_proof
  act_on_proof-Justified env s proof session c old j =
      let id = proof.request_id in
      elim (Option-cases (act proof.action session)) [
        | inl unknown ↦ ground (arith, unknown)
        | inr (next, acted) ↦
            let moved = act-IsJustified id proof.action session c old next acted in
            let saved = save-Justified A C O s id next j moved in
            elim (Bool-cases (agreed next)) [
              | inl t ↦
                  let l : next.request.local_confirmed ≡ true = ground arith in
                  let r : next.request.remote_confirmed ≡ true = ground arith in
                  let final =
                    finish_proof-Justified env.now id next
                      (finalize p env (save_session s id next) id next)
                      (finalize-Justified A C O p env (save_session s id next) id next saved moved
                        (moved.by_user l) (moved.by_peer r)) in
                  ground (arith, acted, t, final)
              | inr t ↦
                  let left = decide-Justified env.now id next (save_session s id next) saved in
                  ground (arith, acted, t, left)
            ]
      ]

  -- A proof that confirms is genuine for the session.
  abbrev pub Proves : Proof → Session → Type 0
  Proves proof session =
      (proof.action ≡ "confirm")
      × (session.request.device_id ≡ proof.device_id)
      × (verify_proof p session.secret proof ≡ true)
      × (Dict.lookup proof.nonce session.last_proof_nonces ≡ none)

  proof_session-Justified :
      (env : Env) (s : Service) (proof : Proof) (found : Option Session)
      → ((session : Session) → found ≡ some session → Proves proof session → C proof.request_id)
      → ((session : Session) → found ≡ some session → IsJustified A C O proof.request_id session)
      → J s
      → J (proof_session p env s proof found).1
  unfolding proof_session
  proof_session-Justified env s proof none c h j = j
  proof_session-Justified env s proof (some session) c h j =
      let genuine =
        session.request.device_id == proof.device_id && verify_proof p session.secret proof in
      elim (Bool-cases genuine) [
        | inr forged ↦ ground (arith, forged, j)
        | inl good ↦ elim (Option-cases (Dict.lookup proof.nonce session.last_proof_nonces)) [
          | inr (at, seen) ↦ ground (arith, good, seen, j)
          | inl new ↦
              let by_peer : proof.action ≡ "confirm" → C proof.request_id = λ t. c session refl (
                t,
                (str_eq_iff session.request.device_id proof.device_id).0 (and-eq-true good).0,
                (and-eq-true good).1,
                new,
              ) in
              let old = h session refl in
              let fresh = used proof.nonce env.now session in
              let kept : IsJustified A C O proof.request_id fresh = record {
                opened = old.opened;
                by_user = old.by_user;
                by_peer = old.by_peer;
              } in
              let next =
                act_on_proof-Justified env (save_session s proof.request_id fresh) proof fresh
                  by_peer kept (save-Justified A C O s proof.request_id fresh j kept) in
              ground (arith, good, new, next)
        ]
      ]

  pub receive_proof-Justified :
      (env : Env) (s : Service) (proof : Proof)
      → ((session : Session)
          → Dict.lookup proof.request_id (prune env.now s).sessions ≡ some session
          → Proves proof session
          → C proof.request_id)
      → J s
      → J (receive_proof p env s proof).1
  unfolding receive_proof
  receive_proof-Justified env s proof c j =
      let pruned = prune-Justified A C O env.now s j in
      let next =
        proof_session-Justified env (prune env.now s) proof
          (Dict.lookup proof.request_id (prune env.now s).sessions) c
          (λ session found.
            Dict.Every-lookup (IsJustified A C O) proof.request_id _ pruned.sessions found)
          pruned in
      ground arith
