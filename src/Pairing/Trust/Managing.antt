-- ===== src/Pairing/Trust/Managing.antt =====
-- The justification through the rejection of a session and through the table's handlers
-- (backend/internal/pairing/service.go).
use sync_space.Base.{
  String, Bool, Option, none, some, ◌≡◌, refl, arith, string_eq, Option-cases, inl, inr,
  if◌then◌else◌,
}
use sync_space.Base.Dict
use sync_space.Base.Dict.{Dict}
use sync_space.Pairing.Models.{TrustedDevice, blocked, trusted, Outcome-cases}
use sync_space.Pairing.Crypto.{Primitives}
use sync_space.Pairing.Store
use sync_space.Pairing.Sessions.{Session, Service, Env, prune}
use sync_space.Pairing.Service.Confirm.{reject_session, reject}
use sync_space.Pairing.Service.Manage.{requests, remove_trusted_device, set_blocked}
use sync_space.Pairing.Trust.Justified.{
  IsJustified, IsGranted, Justified, prune-Justified, save-Justified, get-IsGranted,
  saved-Justified,
}

module _ (A C : String → Type 0) (O : String → String → String → Type 0) (p : Primitives) where
  abbrev J : Service → Type 0
  J = Justified A C O

  reject_session-Justified :
      (env : Env) (s : Service) (id : String) (found : Option Session)
      → ((session : Session) → found ≡ some session → IsJustified A C O id session)
      → J s
      → J (reject_session env s id found).1
  unfolding reject_session
  reject_session-Justified env s id none h j = j
  reject_session-Justified env s id (some session) h j =
      let old = h session refl in
      let saved =
        save-Justified A C O s id _ j
          (record { opened = old.opened; by_user = old.by_user; by_peer = old.by_peer }) in
      record { sessions = saved.sessions; store = saved.store }

  pub reject-Justified : (env : Env) (s : Service) (id : String) → J s → J (reject p env s id).1
  unfolding reject
  reject-Justified env s id j =
      let pruned = prune-Justified A C O env.now s j in
      let next =
        reject_session-Justified env (prune env.now s) id
          (Dict.lookup id (prune env.now s).sessions)
          (λ session found. Dict.Every-lookup (IsJustified A C O) id _ pruned.sessions found)
          pruned in
      ground arith

  pub requests-Justified : (env : Env) (s : Service) → J s → J (requests env s).1
  unfolding requests
  requests-Justified env s j = prune-Justified A C O env.now s j

  pub remove-Justified :
      (env : Env) (s : Service) (device_id : String)
      → J s
      → J (remove_trusted_device p env s device_id).1
  unfolding remove_trusted_device Store.delete
  remove-Justified env s device_id j =
      let left = Dict.Every-erase (IsGranted A C O) device_id s.store j.store in ground arith

  pub set_blocked-Justified :
      (env : Env) (s : Service) (device_id : String) (is_blocked : Bool)
      → J s
      → J (set_blocked p env s device_id is_blocked).1
  unfolding set_blocked
  set_blocked-Justified env s device_id is_blocked j =
      elim (Outcome-cases (Store.get env.get_fails s.store device_id)) [
        | inl refused ↦ ground (arith, refused)
        | inr (inl lost) ↦ ground (arith, lost)
        | inr (inr (d, found)) ↦
            let g = get-IsGranted A C O env.get_fails s.store device_id d j.store found in
            let next : TrustedDevice = record d {
              is_blocked = is_blocked;
              trust_state = if is_blocked then blocked else trusted;
            } in
            let fails = env.upsert_fails device_id in
            elim (Option-cases (Store.upsert fails s.store next)) [
              | inl failed ↦ ground (arith, found, failed)
              | inr (t, saved) ↦
                  let left = saved-Justified A C O fails s next j g.grant saved in
                  ground (arith, found, saved, left)
            ]
      ]
