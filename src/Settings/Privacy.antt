-- ===== src/Settings/Privacy.antt =====
-- Only the acceptance route grants the privacy gate, and nothing takes it away
-- (backend/internal/settings/store.go).
use sync_space.Base.{
  String, Bool, true, false, none, List, [], ◌∷◌, ◌≡◌, ◌⊎◌, inl, inr, ap, sym, ◌∙◌, arith,
  string_eq, str_eq_iff, trim_space, Option-cases, Bool-cases,
}
use sync_space.Settings.{
  Values, Store, Call, updates, accepts, receives_change, schema_version, validate, update,
  accept_privacy, privacy_accepted, step, run, current_privacy_policy_version,
}

-- The call is an acceptance of the current policy that reaches the file.
abbrev pub IsAcceptance : Call → Type 0
IsAcceptance (accepts version at now save_fails) =
    (version ≡ current_privacy_policy_version) × (save_fails ≡ false)
IsAcceptance c = ⊥

abbrev pub SomeAcceptance : List Call → Type 0
SomeAcceptance [] = ⊥
SomeAcceptance (c ∷ cs) = IsAcceptance c ⊎ SomeAcceptance cs

abbrev trimmed : Values → Values
trimmed v = record v { device_name = trim_space v.device_name }

-- What an update writes, if it writes.
abbrev written_by : Store → Values → Values
written_by s v = record (trimmed v) {
  privacy_policy_version = s.values.privacy_policy_version;
  privacy_accepted_at = s.values.privacy_accepted_at;
  schema_version = schema_version;
}

update-cases :
    (is_abs : String → Bool) (s : Store) (v : Values) (save_fails : Bool)
    → ((update is_abs s v save_fails).1 ≡ s)
      ⊎ ((validate is_abs (trimmed v) ≡ none)
          × ((update is_abs s v save_fails).1
              ≡ record s { values = written_by s v; saved = written_by s v; changed = true }))
unfolding update
update-cases is_abs s v save_fails = elim (Option-cases (validate is_abs (trimmed v))) [
  | inr (e, bad) ↦ inl (ground (arith, bad))
  | inl good ↦ elim (Bool-cases save_fails) [
    | inl t ↦ inl (ground (arith, good, t))
    | inr t ↦ inr (good, ground (arith, good, t))
  ]
]

update-privacy_accepted :
    (is_abs : String → Bool) (s : Store) (v : Values) (save_fails : Bool)
    → privacy_accepted (update is_abs s v save_fails).1 ≡ privacy_accepted s
unfolding privacy_accepted
update-privacy_accepted is_abs s v save_fails = elim (update-cases is_abs s v save_fails) [
  | inl same ↦ ap privacy_accepted same
  | inr (good, new) ↦ ap privacy_accepted new
]

step-privacy_accepted :
    (is_abs : String → Bool) (s : Store) (c : Call)
    → privacy_accepted (step is_abs s c) ≡ true
    → (privacy_accepted s ≡ true) ⊎ IsAcceptance c
unfolding step accept_privacy privacy_accepted
step-privacy_accepted is_abs s (updates v save_fails) h =
    inl (sym (update-privacy_accepted is_abs s v save_fails) ∙ h)
step-privacy_accepted is_abs s (accepts version at now save_fails) h =
    ground (arith, str_eq_iff version current_privacy_policy_version)
step-privacy_accepted is_abs s receives_change h = inl h

-- If the privacy policy counts as accepted after a history, then it did so before, or the history has
-- an acceptance of the current version that was saved.
pub run-privacy_accepted :
    (is_abs : String → Bool) (s : Store) (cs : List Call)
    → privacy_accepted (run is_abs s cs) ≡ true
    → (privacy_accepted s ≡ true) ⊎ SomeAcceptance cs
unfolding run
run-privacy_accepted is_abs s [] h = inl h
run-privacy_accepted is_abs s (c ∷ cs) h =
    elim (run-privacy_accepted is_abs (step is_abs s c) cs h) [
      | inr later ↦ inr (inr later)
      | inl here ↦ elim (step-privacy_accepted is_abs s c here) [
        | inl before ↦ inl before
        | inr now ↦ inr (inl now)
      ]
    ]

-- An acceptance outlives every later call of a history.
pub run-still_accepted :
    (is_abs : String → Bool) (s : Store) (cs : List Call)
    → privacy_accepted s ≡ true
    → privacy_accepted (run is_abs s cs) ≡ true
unfolding run step accept_privacy privacy_accepted
run-still_accepted is_abs s [] h = h
run-still_accepted is_abs s (updates v save_fails ∷ cs) h =
    run-still_accepted is_abs (step is_abs s (updates v save_fails)) cs
      (update-privacy_accepted is_abs s v save_fails ∙ h)
run-still_accepted is_abs s (accepts version at now save_fails ∷ cs) h =
    run-still_accepted is_abs (step is_abs s (accepts version at now save_fails)) cs
      (ground (arith, str_eq_iff version current_privacy_policy_version))
run-still_accepted is_abs s (receives_change ∷ cs) h =
    run-still_accepted is_abs (step is_abs s receives_change) cs h
