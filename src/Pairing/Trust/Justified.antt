-- ===== src/Pairing/Trust/Justified.antt =====
-- The justification, and the steps that the handlers share. `A` and `C` say of a request that the
-- user accepted it and that the peer confirmed it, `O` that it was opened for a device and a key.
use sync_space.Base.{
  ℕ, String, Bool, true, some, [], ◌∷◌, ◌≡◌, refl, arith, string_eq, Option-cases, inl, inr,
  if◌then◌else◌, sym,
}
use sync_space.Base.Dict
use mathlib.Core.Path.{subst}
use sync_space.Base.Dict.{Dict}
use sync_space.Pairing.Models.{TrustedDevice, ok}
use sync_space.Pairing.Crypto.{Primitives}
use sync_space.Pairing.Store
use sync_space.Pairing.Sessions.{
  Session, Service, Env, prune, prune_sessions, is_expired, save_session, validate_trusted_device,
  trusted_of, finalized, finalize,
}

module _ (A C : String → Type 0) (O : String → String → String → Type 0) where
  pub record IsJustified (id : String) (session : Session) : Type 0 where
    pub opened : O id session.request.device_id session.remote_public_key
    pub by_user : session.request.local_confirmed ≡ true → A id
    pub by_peer : session.request.remote_confirmed ≡ true → C id

  -- A row of the table stands under its own device and came of an accepted, confirmed request.
  pub record IsGranted (device_id : String) (row : TrustedDevice) : Type 0 where
    pub keyed : row.device_id ≡ device_id
    pub grant : (id : String) × A id × C id × O id row.device_id row.public_key

  pub record Justified (s : Service) : Type 0 where
    pub sessions : Dict.Every IsJustified s.sessions
    pub store : Dict.Every IsGranted s.store

  prune_sessions-IsJustified :
      (now : ℕ) (sessions : Dict String Session) (pending : Dict String String)
      → Dict.Every IsJustified sessions
      → Dict.Every IsJustified (prune_sessions now sessions pending).0
  unfolding prune_sessions
  prune_sessions-IsJustified now [] pending h = tt
  prune_sessions-IsJustified now ((id, session) ∷ rest) pending h =
      let left =
        if is_expired now session then Dict.erase session.request.device_id pending else pending in
      let kept = prune_sessions-IsJustified now rest left h.1 in
      Dict.Every-if IsJustified (is_expired now session) _ _ kept (h.0, kept)

  pub prune-Justified : (now : ℕ) (s : Service) → Justified s → Justified (prune now s)
  unfolding prune
  prune-Justified now s j = record {
    sessions = prune_sessions-IsJustified now s.sessions s.pending_by_device j.sessions;
    store = j.store;
  }

  pub save-Justified :
      (s : Service) (id : String) (session : Session)
      → Justified s
      → IsJustified id session
      → Justified (save_session s id session)
  save-Justified s id session j h = record {
    sessions = Dict.Every-insert IsJustified id session s.sessions h j.sessions;
    store = j.store;
  }

  pub upsert-IsGranted :
      (fails : Bool) (t : Store.Table) (d : TrustedDevice) {t' : Store.Table}
      → Dict.Every IsGranted t
      → ((id : String) × A id × C id × O id d.device_id d.public_key)
      → Store.upsert fails t d ≡ some t'
      → Dict.Every IsGranted t'
  unfolding Store.upsert Store.to_row
  upsert-IsGranted fails t d h g e =
      let row =
        Dict.Every-insert IsGranted d.device_id (Store.to_row d) t
          (record { keyed = refl; grant = g }) h in
      subst (Dict.Every IsGranted) (ground arith) row

  pub get-IsGranted :
      (fails : Bool) (t : Store.Table) (device_id : String) (d : TrustedDevice)
      → Dict.Every IsGranted t
      → Store.get fails t device_id ≡ ok d
      → IsGranted device_id d
  unfolding Store.get Store.scan_trusted_device
  get-IsGranted fails t device_id d h e = elim (Option-cases (Dict.lookup device_id t)) [
    | inl missing ↦ ground (arith, missing, e)
    | inr (row, found) ↦
        let g = Dict.Every-lookup IsGranted device_id t h found in
        let same : d ≡ Store.scan_trusted_device row = ground (arith, found, e) in
        subst (IsGranted device_id) (sym same) (record { keyed = g.keyed; grant = g.grant })
  ]

  -- A write of a row that changes neither its device nor its key.
  pub saved-Justified :
      (fails : Bool) (s : Service) (d : TrustedDevice) {t : Store.Table}
      → Justified s
      → ((id : String) × A id × C id × O id d.device_id d.public_key)
      → Store.upsert fails s.store d ≡ some t
      → Justified (record s { store = t })
  saved-Justified fails s d j g e = record {
    sessions = j.sessions;
    store = upsert-IsGranted fails s.store d j.store g e;
  }

  pub finalize-Justified :
      (p : Primitives) (env : Env) (s : Service) (id : String) (session : Session)
      → Justified s
      → IsJustified id session
      → A id
      → C id
      → Justified (finalize p env s id session).1
  unfolding finalize
  finalize-Justified p env s id session j h a c =
      let device = trusted_of p env.now session in
      elim (Option-cases (validate_trusted_device p device)) [
        | inr (e, bad) ↦ rw (bad, finalize) j
        | inl good ↦
            elim (Option-cases (Store.upsert (env.upsert_fails device.device_id) s.store device)) [
              | inl lost ↦ rw (good, lost, finalize) j
              | inr (store, saved) ↦
                  rw (good, saved, finalize)
                    (record {
                      sessions =
                          Dict.Every-insert IsJustified id (finalized device session) s.sessions
                            (record { opened = h.opened; by_user = λ _. a; by_peer = λ _. c })
                            j.sessions;
                      store = upsert-IsGranted _ s.store device j.store (id, a, c, h.opened) saved;
                    })
            ]
      ]
