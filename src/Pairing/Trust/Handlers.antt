-- ===== src/Pairing/Trust/Handlers.antt =====
-- The steps of the pairing service that keep the justification: the check of a request and the
-- peer's decision (backend/internal/pairing/service.go).
use sync_space.Base.{
  String, true, Option, none, some, ◌≡◌, refl, arith, string_eq, Bool-cases, and-eq-true, inl, inr,
  ◌&&◌, ◌==◌, str_eq_iff,
}
use sync_space.Base.Dict
use sync_space.Base.Dict.{Dict}
use sync_space.Base.Int.{int_eq}
use sync_space.Models.{Device}
use sync_space.Pairing.Models.{TrustedDevice, PeerDecision, Outcome, ok, err, nil_dereference}
use sync_space.Pairing.Crypto.{Primitives, verify_decision}
use sync_space.Pairing.Sessions.{
  Session, Service, Env, save_session, finalize, decided, with_state, turned_down, apply_decision,
  apply_peer_decision,
}
use sync_space.Pairing.Service.Begin.{request_locked, request_pairing_check}
use sync_space.Pairing.Trust.Justified.{
  IsJustified, Justified, prune-Justified, save-Justified, finalize-Justified,
}

module _ (A C : String → Type 0) (O : String → String → String → Type 0) (p : Primitives) where
  abbrev J : Service → Type 0
  J = Justified A C O

  request_locked-Justified :
      (env : Env) (s : Service) (peer : Device) (id : String) (found : Outcome TrustedDevice)
      → J s
      → J (request_locked env s peer id found).1
  unfolding request_locked
  request_locked-Justified env s peer id nil_dereference j = j
  request_locked-Justified env s peer id (ok d) j = j
  request_locked-Justified env s peer id (err e) j = ground arith

  pub request_pairing_check-Justified :
      (env : Env) (s : Service) (id : String) → J s → J (request_pairing_check p env s id).1
  unfolding request_pairing_check
  request_pairing_check-Justified env s id j =
      let pruned = prune-Justified A C O env.now s j in ground arith

  -- The peer's decision says that it confirms the request, and has the session's authentication code.
  abbrev pub Confirms : String → PeerDecision → Session → Type 0
  Confirms id decision session =
      (decision.request_id ≡ id)
      × (verify_decision p session.secret decision ≡ true)
      × (decision.local_confirmed ≡ true)

  pub apply_decision-Justified :
      (env : Env) (s : Service) (id : String) (decision : PeerDecision) (found : Option Session)
      → ((session : Session) → found ≡ some session → Confirms id decision session → C id)
      → ((session : Session) → found ≡ some session → IsJustified A C O id session)
      → J s
      → J (apply_decision p env s id decision found).1
  unfolding apply_decision
  apply_decision-Justified env s id decision none c h j = j
  apply_decision-Justified env s id decision (some session) c h j =
      let genuine = decision.request_id == id && verify_decision p session.secret decision in
      elim (Bool-cases genuine) [
        | inr forged ↦ ground (arith, forged, j)
        | inl good ↦
            let old = h session refl in
            let next = decided decision session in
            let by_peer : decision.local_confirmed ≡ true → C id = λ t. c session refl (
              (str_eq_iff decision.request_id id).0 (and-eq-true good).0,
              (and-eq-true good).1,
              t,
            ) in
            let moved : IsJustified A C O id next = record {
              opened = old.opened;
              by_user = old.by_user;
              by_peer = by_peer;
            } in
            let down : IsJustified A C O id (turned_down next) = record {
              opened = old.opened;
              by_user = old.by_user;
              by_peer = by_peer;
            } in
            let open_still : IsJustified A C O id (with_state next) = record {
              opened = old.opened;
              by_user = old.by_user;
              by_peer = by_peer;
            } in
            let saved = save-Justified A C O s id next j moved in
            let saved_down = save-Justified A C O s id (turned_down next) j down in
            let saved_open = save-Justified A C O s id (with_state next) j open_still in
            let both = session.request.local_confirmed && decision.local_confirmed in
            let final : both ≡ true → J (finalize p env (save_session s id next) id next).1 = λ t.
              let (a, b) = and-eq-true t in
              finalize-Justified A C O p env (save_session s id next) id next saved moved
                (old.by_user a) (by_peer b) in
            elim (Bool-cases both) [
              | inl t ↦ let done = final t in ground (arith, done, t, good)
              | inr t ↦ ground (arith, t, good)
            ]
      ]

  pub apply_peer_decision-Justified :
      (env : Env) (s : Service) (id : String) (decision : PeerDecision)
      → ((session : Session)
          → Dict.lookup id s.sessions ≡ some session
          → Confirms id decision session
          → C id)
      → J s
      → J (apply_peer_decision p env s id decision).1
  unfolding apply_peer_decision
  apply_peer_decision-Justified env s id decision c j =
      apply_decision-Justified env s id decision (Dict.lookup id s.sessions) c
        (λ session found. Dict.Every-lookup (IsJustified A C O) id s.sessions j.sessions found) j
