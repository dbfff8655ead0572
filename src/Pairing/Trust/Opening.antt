-- ===== src/Pairing/Trust/Opening.antt =====
-- The justification through the two sections of the signed exchange that open a session
-- (backend/internal/pairing/service.go).
use sync_space.Base.{
  ℕ, String, true, false, Option, none, some, ◌≡◌, refl, arith, string_eq, Option-cases, inl, inr,
}
use sync_space.Base.Dict
use sync_space.Base.Dict.{Dict}
use sync_space.Base.Int.{int_eq}
use sync_space.Models.{Device}
use sync_space.Pairing.Models.{
  Bytes, TrustedDevice, BeginRequest, BeginResponse, Outcome, ok, err, nil_dereference,
}
use sync_space.Pairing.Crypto.{Primitives, verify_request}
use sync_space.Pairing.Store
use sync_space.Pairing.Sessions.{Session, Service, Env, prune, find_online_peer}
use sync_space.Pairing.Service.Exchange.{Draw, open_session}
use sync_space.Pairing.Service.Begin.{request_pairing_finish, request_exchange, store_request}
use sync_space.Pairing.Service.Receive.{
  begin_locked, begin_pruned, receive_begin_check, receive_begin_finish, evict, receive_exchange,
  store_begin,
}
use sync_space.Pairing.Trust.Justified.{
  IsJustified, IsGranted, Justified, prune-Justified, get-IsGranted, saved-Justified,
}

module _ (A C : String → Type 0) (O : String → String → String → Type 0) (p : Primitives) where
  abbrev J : Service → Type 0
  J = Justified A C O

  -- A new session is confirmed by nobody.
  open_session-Justified :
      (s : Service) (id : String) (session : Session)
      → O id session.request.device_id session.remote_public_key
      → session.request.local_confirmed ≡ false
      → session.request.remote_confirmed ≡ false
      → J s
      → J (open_session s id session)
  open_session-Justified s id session o l r j = record {
    sessions =
        Dict.Every-insert (IsJustified A C O) id session s.sessions
          (record { opened = o; by_user = λ h. cc; by_peer = λ h. cc }) j.sessions;
    store = j.store;
  }

  -- What a new session is made of.
  IsNew : Session → Type 0
  IsNew session =
      O session.request.request_id session.request.device_id session.remote_public_key
      × (session.request.local_confirmed ≡ false)
      × (session.request.remote_confirmed ≡ false)

  request_exchange-none :
      (now : ℕ) (s : Service) (peer : Device) (draw : Draw) {session : Session}
      → request_exchange p now s peer draw none ≡ ok session
      → IsNew session
  unfolding request_exchange
  request_exchange-none now s peer draw e = ground arith

  request_exchange-IsNew :
      (now : ℕ) (s : Service) (peer : Device) (draw : Draw) (response : BeginResponse)
      → O draw.request_id peer.id response.public_key
      → {session : Session} → request_exchange p now s peer draw (some response) ≡ ok session
      → IsNew session
  unfolding request_exchange IsNew
  request_exchange-IsNew now s peer draw response o e = ground arith

  store_request-Justified :
      (now : ℕ) (s : Service) (outcome : Outcome Session)
      → ((session : Session) → outcome ≡ ok session → IsNew session)
      → J s
      → J (store_request now s outcome).1
  unfolding IsNew
  store_request-Justified now s (err e) h j = j
  store_request-Justified now s nil_dereference h j = j
  store_request-Justified now s (ok session) h j =
      let (o, l, r) = h session refl in
      let next = open_session-Justified s session.request.request_id session o l r j in
      record { sessions = next.sessions; store = next.store }

  pub request_pairing_finish-Justified :
      (now : ℕ) (s : Service) (peer : Device) (draw : Draw) (reply : Option BeginResponse)
      → ((response : BeginResponse)
          → reply ≡ some response
          → O draw.request_id peer.id response.public_key)
      → J s
      → J (request_pairing_finish p now s peer draw reply).1
  unfolding request_pairing_finish
  request_pairing_finish-Justified now s peer draw none o j =
      store_request-Justified now s _ (λ session e. request_exchange-none now s peer draw e) j
  request_pairing_finish-Justified now s peer draw (some response) o j =
      store_request-Justified now s _
        (λ session e. request_exchange-IsNew now s peer draw response (o response refl) e) j

  begin_locked-Justified :
      (env : Env) (s : Service) (begin : BeginRequest) (host : String) (peer : Device × Bytes)
      (found : Outcome TrustedDevice)
      → ((d : TrustedDevice) → found ≡ ok d → IsGranted A C O begin.device_id d)
      → J s
      → J (begin_locked p env s begin host peer found).1
  unfolding begin_locked
  begin_locked-Justified env s begin host peer nil_dereference h j = j
  begin_locked-Justified env s begin host peer (err e) h j = ground arith
  begin_locked-Justified env s begin host peer (ok d) h j =
      let changed : TrustedDevice = record d { identity_key_changed = true } in
      let fails = env.upsert_fails begin.device_id in
      elim (Option-cases (Store.upsert fails s.store changed)) [
        | inl lost ↦ ground (arith, lost)
        | inr (t, saved) ↦
            let next = saved-Justified A C O fails s changed j (h d refl).grant saved in
            ground (arith, saved, next)
      ]

  begin_pruned-Justified :
      (env : Env) (s : Service) (begin : BeginRequest) (host : String) (peer : Device × Bytes)
      → J s
      → J (begin_pruned p env s begin host peer).1
  unfolding begin_pruned
  begin_pruned-Justified env s begin host peer j =
      let locked =
        begin_locked-Justified env s begin host peer
          (Store.get env.get_fails s.store begin.device_id)
          (λ d e. get-IsGranted A C O env.get_fails s.store begin.device_id d j.store e) j in
      ground arith

  pub receive_begin_check-Justified :
      (env : Env) (s : Service) (begin : BeginRequest) (host : String)
      → J s
      → J (receive_begin_check p env s begin host).1
  unfolding receive_begin_check
  receive_begin_check-Justified env s begin host j =
      let pruned = prune-Justified A C O env.now s j in
      elim (Option-cases (find_online_peer env.peers begin.device_id)) [
        | inl missing ↦ ground (arith, missing)
        | inr (peer, found) ↦ elim (Option-cases (verify_request p begin)) [
          | inl unsigned ↦ ground (arith, found, unsigned)
          | inr (key, signed) ↦
              let next =
                begin_pruned-Justified env (prune env.now s) begin host (peer, key) pruned in
              ground (arith, found, signed, next)
        ]
      ]

  receive_exchange-IsNew :
      (now : ℕ) (s : Service) (begin : BeginRequest) (peer : Device × Bytes) (draw : Draw)
      → O begin.request_id begin.device_id begin.public_key
      → {session : Session} → receive_exchange p now s begin peer draw ≡ ok session
      → IsNew session
  unfolding receive_exchange IsNew
  receive_exchange-IsNew now s begin peer draw o e = ground arith

  evict-Justified :
      (s : Service) (device_id request_id : String) → J s → J (evict s device_id request_id)
  evict-Justified s device_id request_id j =
      elim (Option-cases (Dict.lookup device_id s.pending_by_device)) [
        | inl none_pending ↦ ground (arith, none_pending)
        | inr (existing, found) ↦
            let left = Dict.Every-erase (IsJustified A C O) existing s.sessions j.sessions in
            ground (arith, found, left)
      ]

  store_begin-Justified :
      (now : ℕ) (s : Service) (outcome : Outcome Session)
      → ((session : Session) → outcome ≡ ok session → IsNew session)
      → J s
      → J (store_begin now s outcome).1
  unfolding IsNew
  store_begin-Justified now s (err e) h j = j
  store_begin-Justified now s nil_dereference h j = j
  store_begin-Justified now s (ok session) h j =
      let (o, l, r) = h session refl in
      let id = session.request.request_id in
      let left = evict-Justified s session.request.device_id id j in
      let next =
        open_session-Justified (evict s session.request.device_id id) id session o l r left in
      record { sessions = next.sessions; store = next.store }

  pub receive_begin_finish-Justified :
      (now : ℕ) (s : Service) (begin : BeginRequest) (peer : Device × Bytes) (draw : Draw)
      → O begin.request_id begin.device_id begin.public_key
      → J s
      → J (receive_begin_finish p now s begin peer draw).1
  unfolding receive_begin_finish
  receive_begin_finish-Justified now s begin peer draw o j =
      store_begin-Justified now s _ (λ session e. receive_exchange-IsNew now s begin peer draw o e)
        j
