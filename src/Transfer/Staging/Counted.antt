-- ===== src/Transfer/Staging/Counted.antt =====
-- The counters of active uploads count the uploads in flight.
use sync_space.Base.{
  ℕ, suc, ◌+◌, ◌-◌, String, Bool, true, false, not, ◌&&◌, ◌||◌, Option, none, some, List, [], ◌∷◌,
  ◌≡◌, refl, sym, ◌∙◌, arith, if◌then◌else◌, ltb, ◌==◌, string_eq, str_eq_iff, Bool-cases,
  Option-cases, inl, inr, ◌⊎◌,
}
use mathlib.Core.Path.{subst}
use sync_space.Base.Dict
use sync_space.Base.Int.{ℤ, pos, ltb_ℤ}
use sync_space.Transfer.Models.{Outcome-cases}
use sync_space.Transfer.Paths.{Platform, validate_relative_path, is_one_of}
use sync_space.Transfer.Staging.{
  Staging, active_of, begin_stage_upload, end_stage_upload, stage_upload_active, create_stage,
  finish_one, UploadEnv, open_staged, start_upload, end_upload, queue_promote, delete_stage,
  remove_expired, day,
}
use sync_space.Transfer.Staging.History.{
  Action, creates, starts, ends, promotes, deletes, expires, act, act_all,
}

-- How many uploads of a session are in flight.
unfoldable pub in_flight : String → List String → ℕ
in_flight id [] = 0
in_flight id (u ∷ us) = let rest = in_flight id us in if u == id then suc rest else rest

abbrev pub IsCounted : String → Staging → Type 0
IsCounted id s = active_of s id ≡ in_flight id s.uploads

active_of-begin :
    (s : Staging) (other id : String)
    → active_of (begin_stage_upload s other) id
      ≡ (if other == id then active_of s other + 1 else active_of s id)
unfolding begin_stage_upload
active_of-begin s other id =
    ground (arith, Dict.lookup-insert other id (active_of s other + 1) s.staging_active)

active_of-end :
    (s : Staging) (other id : String)
    → active_of (end_stage_upload s other) id
      ≡ (if other == id then active_of s other - 1 else active_of s id)
unfolding end_stage_upload
active_of-end s other id = ground (
  arith,
  Dict.lookup-insert other id (active_of s other - 1) s.staging_active,
  Dict.lookup-erase other id s.staging_active,
)

in_flight-finish :
    (other id : String) (us : List String)
    → is_one_of other us ≡ true
    → in_flight id (finish_one other us)
      ≡ (if other == id then in_flight id us - 1 else in_flight id us)
unfolding in_flight finish_one
in_flight-finish other id [] h = ground (arith, h)
in_flight-finish other id (u ∷ us) h = ground (
  arith,
  h,
  str_eq_iff u id,
  str_eq_iff other id,
  str_eq_iff u other,
  str_eq_iff other u,
  in_flight-finish other id us,
)

module _ (p : Platform) (is_uuid : String → Bool) (root_of : String → String) where
  begin-end :
      (s : Staging) (other id : String)
      → active_of (end_stage_upload (begin_stage_upload s other) other) id ≡ active_of s id
  begin-end s other id = ground (
    arith,
    str_eq_iff other id,
    str_eq_iff other other,
    active_of-end (begin_stage_upload s other) other id,
    active_of-begin s other id,
    active_of-begin s other other,
  )

  abbrev opened : Staging → String → String → List String → Staging
  opened s other target files = record (begin_stage_upload s other) {
    uploading = Dict.insert other (target ∷ files) (begin_stage_upload s other).uploading;
    uploads = other ∷ (begin_stage_upload s other).uploads;
  }

  start_upload-cases :
      (env : UploadEnv) (s : Staging) (other relative : String) (size : ℤ)
      → ((start_upload p is_uuid root_of env s other relative size).1 ≡ s)
        ⊎ ((start_upload p is_uuid root_of env s other relative size).1
            ≡ end_stage_upload (begin_stage_upload s other) other)
        ⊎ ((target : String) × (files : List String) × ((start_upload p is_uuid root_of env s other
                relative size).1
              ≡ opened s other target files))
  unfolding start_upload
  start_upload-cases env s other relative size =
      elim (Bool-cases
        (not (is_uuid other) || not (validate_relative_path p relative) || ltb_ℤ size (pos 0))) [
          | inl bad ↦ inl (ground (arith, bad))
          | inr fit ↦ elim (Option-cases (Dict.lookup other s.uploading)) [
            | inl unknown ↦ inl (ground (arith, fit, unknown))
            | inr (files, found) ↦
                elim (Outcome-cases (open_staged p is_uuid root_of env other files relative size)) [
                  | inl (e, bad) ↦ inr (inl (ground (arith, fit, found, bad)))
                  | inr (target, good) ↦ inr (inr (target, files, ground (arith, fit, found, good)))
                ]
          ]
        ]

  start_upload-IsCounted :
      (env : UploadEnv) (s : Staging) (other relative : String) (size : ℤ) (id : String)
      → IsCounted id s
      → IsCounted id (start_upload p is_uuid root_of env s other relative size).1
  unfolding begin_stage_upload end_stage_upload in_flight
  start_upload-IsCounted env s other relative size id h =
      elim (start_upload-cases env s other relative size) [
        | inl same ↦ subst (IsCounted id) (sym same) h
        | inr (inl ended) ↦ subst (IsCounted id) (sym ended) (begin-end s other id ∙ h)
        | inr (inr (target, files, begun)) ↦
            subst (IsCounted id) (sym begun)
              (ground (arith, h, str_eq_iff other id, active_of-begin s other id))
      ]

  either :
      (t : Bool) (other : String) (s : Staging) (id : String)
      → IsCounted id s
      → IsCounted id (if t then record s { uploading = Dict.erase other s.uploading } else s)
  either true other s id h = h
  either false other s id h = h

  remove_expired-IsCounted :
      (now : ℕ) (modified : String → Option ℕ) (remove_fails : String → Bool) (s : Staging)
      (ids : List String) (id : String)
      → IsCounted id s
      → IsCounted id (remove_expired now modified remove_fails s ids)
  unfolding remove_expired
  remove_expired-IsCounted now modified remove_fails s [] id h = h
  remove_expired-IsCounted now modified remove_fails s (other ∷ ids) id h =
      let old : Bool = elim (modified other) [ none ↦ false | some at ↦ ltb day (now - at) ] in
      let t = not (stage_upload_active s other) && old && not (remove_fails other) in
      remove_expired-IsCounted now modified remove_fails
        (if t then record s { uploading = Dict.erase other s.uploading } else s) ids id
        (either t other s id h)

  act-IsCounted :
      (s : Staging) (a : Action) (id : String)
      → IsCounted id s
      → IsCounted id (act p is_uuid root_of s a)
  unfolding act create_stage queue_promote delete_stage end_upload
  act-IsCounted s (creates fails other) id h = ground (arith, h)
  act-IsCounted s (starts env other relative size) id h =
      start_upload-IsCounted env s other relative size id h
  act-IsCounted s (ends complete other target) id h =
      elim (Bool-cases (is_one_of other s.uploads)) [
        | inr unknown ↦ rw unknown h
        | inl known ↦ rw known (
            ground (
              arith,
              h,
              str_eq_iff other id,
              active_of-end s other id,
              in_flight-finish other id s.uploads known,
            ))
      ]
  act-IsCounted s (promotes rename_fails rollback_fails result other) id h = ground (arith, h)
  act-IsCounted s (deletes fails other) id h = ground (arith, h)
  act-IsCounted s (expires now modified remove_fails ids) id h =
      remove_expired-IsCounted now modified remove_fails s ids id h

  -- In any history of the stages, the counter of a session is the number of its uploads in flight, so
  -- that it counts as active exactly while one is, if that held before.
  pub act_all-IsCounted :
      (s : Staging) (more : List Action) (id : String)
      → IsCounted id s
      → IsCounted id (act_all p is_uuid root_of s more)
        × (stage_upload_active (act_all p is_uuid root_of s more) id
            ≡ ltb 0 (in_flight id (act_all p is_uuid root_of s more).uploads))
  unfolding act_all stage_upload_active
  act_all-IsCounted s [] id h = (h, rw h refl)
  act_all-IsCounted s (a ∷ more) id h =
      act_all-IsCounted (act p is_uuid root_of s a) more id (act-IsCounted s a id h)
