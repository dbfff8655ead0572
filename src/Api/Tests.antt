-- ===== src/Api/Tests.antt =====
-- The privacy gate on a concrete request (backend/internal/api/router.go).
use sync_space.Api.{trim_prefix}
use sync_space.Settings.{privacy_accepted}
use sync_space.Base.{has_prefix, false, some, ◌≡◌, refl, inl}
use sync_space.Settings.{Store, defaults}
use sync_space.Api.{privacy_gate}
use sync_space.Api.Closed.{privacy_gate-closed}

abbrev new : Store
new = record { values = defaults ""; saved = defaults ""; changed = false }

privacy_gate-closed_example : privacy_gate (some new) "POST" "/api/v1/transfers" ≡ false
unfolding privacy_accepted defaults has_prefix trim_prefix
privacy_gate-closed_example = privacy_gate-closed new "POST" "/api/v1/transfers" refl (inl refl)
