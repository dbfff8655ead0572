-- ===== src/Pairing/Trust/Refreshing.antt =====
-- The justification through the refresh of the table that `TrustedDevices` of
-- backend/internal/pairing/service.go makes.
use sync_space.Base.{
  String, Option, List, [], ◌∷◌, ◌≡◌, arith, string_eq, Bool-cases, Option-cases, inl, inr, map,
  All,
}
use sync_space.Base.Dict
use sync_space.Base.Dict.{Dict}
use sync_space.Models.{Device}
use sync_space.Pairing.Models.{TrustedDevice}
use sync_space.Pairing.Crypto.{Primitives}
use sync_space.Pairing.Store
use sync_space.Pairing.Sessions.{Service, Env}
use sync_space.Pairing.Service.Manage.{refreshed, refresh_devices, trusted_devices, peers_by_id}
use sync_space.Pairing.Trust.Justified.{IsGranted, Justified, upsert-IsGranted}

module _ (A C : String → Type 0) (O : String → String → String → Type 0) (p : Primitives) where
  -- The device has a request that grants it.
  HasGrant : TrustedDevice → Type 0
  HasGrant d = (id : String) × A id × C id × O id d.device_id d.public_key

  refreshed-same :
      (found : Option Device) (d : TrustedDevice)
      → ((refreshed p found d).0.device_id ≡ d.device_id)
        × ((refreshed p found d).0.public_key ≡ d.public_key)
  unfolding refreshed
  refreshed-same found d = ground arith

  refreshed-HasGrant :
      (found : Option Device) (d : TrustedDevice) → HasGrant d → HasGrant (refreshed p found d).0
  unfolding HasGrant
  refreshed-HasGrant found d (id, a, c, o) =
      let (same_id, same_key) = refreshed-same found d in (id, a, c, rw (same_id, same_key) o)

  refresh_devices-IsGranted :
      (env : Env) (peers : Dict String Device) (t : Store.Table) (devices : List TrustedDevice)
      → Dict.Every (IsGranted A C O) t
      → All HasGrant devices
      → Dict.Every (IsGranted A C O) (refresh_devices p env peers t devices).1
  unfolding refresh_devices HasGrant
  refresh_devices-IsGranted env peers t [] h g = h
  refresh_devices-IsGranted env peers t (d ∷ devices) h g =
      let found = Dict.lookup d.device_id peers in
      let next = (refreshed p found d).0 in
      let fails = env.upsert_fails next.device_id in
      elim (Bool-cases (refreshed p found d).1) [
        | inr same ↦
            let left = refresh_devices-IsGranted env peers t devices h g.1 in
            ground (arith, same, left)
        | inl changed ↦ elim (Option-cases (Store.upsert fails t next)) [
          | inl lost ↦ ground (arith, changed, lost, h)
          | inr (t', saved) ↦
              let left =
                refresh_devices-IsGranted env peers t' devices
                  (upsert-IsGranted A C O fails t next h (refreshed-HasGrant found d g.0) saved)
                  g.1 in
              ground (arith, changed, saved, left)
        ]
      ]

  place-HasGrant :
      (d : TrustedDevice) (ds : List TrustedDevice)
      → HasGrant d
      → All HasGrant ds
      → All HasGrant (Store.place d ds)
  unfolding Store.place
  place-HasGrant d [] h hs = (h, tt)
  place-HasGrant d (e ∷ es) h hs = let rest = place-HasGrant d es h hs.1 in ground arith

  in_order-HasGrant :
      (t : Store.Table) → Dict.Every (IsGranted A C O) t → All HasGrant (Store.in_order t)
  unfolding Store.in_order HasGrant
  in_order-HasGrant [] h = tt
  in_order-HasGrant ((id, row) ∷ t) h =
      place-HasGrant row (Store.in_order t) h.0.grant (in_order-HasGrant t h.1)

  scan-HasGrant :
      (ds : List TrustedDevice) → All HasGrant ds → All HasGrant (map Store.scan_trusted_device ds)
  unfolding HasGrant Store.scan_trusted_device
  scan-HasGrant [] h = tt
  scan-HasGrant (d ∷ ds) h = (h.0, scan-HasGrant ds h.1)

  pub trusted_devices-Justified :
      (env : Env) (s : Service) → Justified A C O s → Justified A C O (trusted_devices p env s).1
  unfolding trusted_devices Store.list
  trusted_devices-Justified env s j =
      let rows = scan-HasGrant (Store.in_order s.store) (in_order-HasGrant s.store j.store) in
      let left =
        refresh_devices-IsGranted env (peers_by_id env.peers []) s.store
          (map Store.scan_trusted_device (Store.in_order s.store)) j.store rows in
      elim (Bool-cases env.list_fails) [
        | inl t ↦ ground (arith, t)
        | inr t ↦ ground (arith, t, left)
      ]
