-- ===== src/Pairing/Expiry.antt =====
-- A request that has expired can no longer be accepted (backend/internal/pairing/service.go).
use sync_space.Base.{
  ℕ, String, true, none, some, [], ◌∷◌, ◌≡◌, ◌<◌, arith, string_eq, str_eq_iff, if◌then◌else◌, refl,
}
use sync_space.Base.Dict
use sync_space.Base.Dict.{Dict}
use sync_space.Pairing.Models.{err, request_not_found}
use sync_space.Pairing.Crypto.{Primitives}
use sync_space.Pairing.Sessions.{Session, Service, Env, prune, prune_sessions, is_expired}
use sync_space.Pairing.Service.Exchange.{done}
use sync_space.Pairing.Service.Confirm.{accept_check, accept_session}

absent_after :
    (now : ℕ) (id : String) (sessions : Dict String Session) (pending : Dict String String)
    → Dict.lookup id sessions ≡ none
    → Dict.lookup id (prune_sessions now sessions pending).0 ≡ none
unfolding prune_sessions Dict.lookup
absent_after now id [] pending h = refl
absent_after now id ((j, session) ∷ rest) pending h =
    let left =
      if is_expired now session then Dict.erase session.request.device_id pending else pending in
    let tail = absent_after now id rest left in ground (arith, tail, h)

expired_after :
    (now : ℕ) (id : String) (sessions : Dict String Session) (pending : Dict String String)
    {session : Session}
    → Dict.Distinct sessions
    → Dict.lookup id sessions ≡ some session
    → session.request.expires_at < now
    → Dict.lookup id (prune_sessions now sessions pending).0 ≡ none
unfolding prune_sessions Dict.lookup
expired_after now id [] pending d h x = refl
expired_after now id ((j, first) ∷ rest) pending {session} d h x =
    let left =
      if is_expired now first then Dict.erase first.request.device_id pending else pending in
    let gone = absent_after now id rest left in
    let tail = expired_after now id rest left {session = session} d.1 in
    ground (arith, gone, tail, h, x, d.0, str_eq_iff j id)

-- If no request has two sessions, then accepting a request after its expiry finds no such request.
pub accept_check-expired :
    (p : Primitives) (env : Env) (s : Service) (id : String) (session : Session)
    → p.is_uuid id ≡ true
    → Dict.Distinct s.sessions
    → Dict.lookup id s.sessions ≡ some session
    → session.request.expires_at < env.now
    → (accept_check p env s id).0 ≡ done (err request_not_found)
unfolding accept_check accept_session prune
accept_check-expired p env s id session u d h x =
    let gone = expired_after env.now id s.sessions s.pending_by_device d h x in
    ground (arith, u, gone)
