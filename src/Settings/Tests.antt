-- ===== src/Settings/Tests.antt =====
-- The privacy gate on a concrete store (backend/internal/settings/store.go).
use sync_space.Base.{true, false, List, [], ◌∷◌, ◌≡◌, ◌⊎◌, refl}
use sync_space.Settings.{
  Values, Store, Call, accepts, receives_change, defaults, privacy_accepted, run, step,
  accept_privacy,
}
use sync_space.Settings.Privacy.{SomeAcceptance, run-privacy_accepted}

abbrev new_values : Values
new_values = defaults ""

abbrev new : Store
new = record { values = new_values; saved = new_values; changed = false }

abbrev calls : List Call
calls = accepts "2026-07-1" 5 9 false ∷ receives_change ∷ accepts "2025" 6 9 false ∷ []

accepted_now : privacy_accepted (run (λ s. true) new calls) ≡ true
unfolding privacy_accepted run step accept_privacy
accepted_now = refl

run-privacy_accepted_example : (privacy_accepted new ≡ true) ⊎ SomeAcceptance calls
run-privacy_accepted_example = run-privacy_accepted (λ s. true) new calls accepted_now
