-- ===== src/Transfer/Staging.antt =====
-- The upload areas for files that a browser sends (backend/internal/transfer/staging.go). A session is
-- the list of the paths in its directory; what the disk answers is an argument. An upload holds no lock
-- from its start to its end, so it is two steps, and the uploads in between are listed in `uploads`.
pub mod History
pub mod Counted
use sync_space.Base.{
  ℕ, zero, suc, ◌+◌, ◌-◌, ◌*◌, String, ◌<>◌, Bool, true, false, not, ◌&&◌, ◌||◌, Option, none, some,
  List, [], ◌∷◌, ◌++◌, if◌then◌else◌, ltb, leb, ◌==◌, string_eq, trim_space, is_empty,
}
use sync_space.Base.Dict
use sync_space.Base.Dict.{Dict}
use sync_space.Base.Int.{ℤ, pos, ltb_ℤ}
use sync_space.Transfer.Models.{
  Transfer, TransferError, Outcome, ok, err, invalid_request, invalid_state, not_found,
  path_traversal, other,
}
use sync_space.Transfer.Paths.{
  Platform, validate_relative_path, secure_join, contains_code, is_one_of,
}

pub record Staging : Type 0 where
  pub uploading : Dict String (List String)
  pub queued : Dict String (List String)
  pub staging_active : Dict String ℕ
  pub uploads : List String

abbrev pub count : Option ℕ → ℕ
count none = 0
count (some n) = n

-- `stagingActive[id]`, where a missing key reads as zero.
abbrev pub active_of : Staging → String → ℕ
active_of s id = count (Dict.lookup id s.staging_active)

unfoldable pub begin_stage_upload : Staging → String → Staging
begin_stage_upload s id = record s {
  staging_active = Dict.insert id (active_of s id + 1) s.staging_active;
}

unfoldable pub end_stage_upload : Staging → String → Staging
end_stage_upload s id = record s {
  staging_active =
      if leb (active_of s id) 1
      then Dict.erase id s.staging_active
      else Dict.insert id (active_of s id - 1) s.staging_active;
}

unfoldable pub stage_upload_active : Staging → String → Bool
stage_upload_active s id = ltb 0 (active_of s id)

-- `id` is the new UUID.
unfoldable pub create_stage : Bool → Staging → String → Outcome String × Staging
create_stage fails s id =
    if fails
    then (err (other "create"), s)
    else (ok id, record s { uploading = Dict.insert id [] s.uploading })

-- One upload less of a session in flight.
unfoldable pub finish_one : String → List String → List String
finish_one id [] = []
finish_one id (u ∷ us) = if u == id then us else u ∷ finish_one id us

-- What the disk answers to an upload.
pub record UploadEnv : Type 0 where
  pub available : ℤ
  pub mkdir_fails : Bool
  pub open_fails : Bool

-- One root, as the user names it.
abbrev root_name : (String → String) → String → String
root_name to_slash root = trim_space (to_slash root)

module _ (p : Platform) (is_uuid : String → Bool) (root_of : String → String) where
  -- The checks after the upload counts as active; the path that is then open.
  unfoldable pub open_staged : UploadEnv → String → List String → String → ℤ → Outcome String
  unfolding secure_join
  open_staged env id files relative size =
      if not (ltb_ℤ env.available (pos 0)) && ltb_ℤ env.available size
      then err invalid_request
      else elim (secure_join p (root_of id) relative) [
        | none ↦ err path_traversal
        | some target ↦
            if env.mkdir_fails
            then err (other "mkdir")
            else if is_one_of target files
            then err invalid_request
            else if env.open_fails
            then err (other "open")
            else ok target
      ]

  -- `UploadStagedFile` up to the file's creation; an error ends the upload at once.
  unfoldable pub start_upload : UploadEnv → Staging → String → String → ℤ → Outcome String × Staging
  unfolding begin_stage_upload end_stage_upload open_staged
  start_upload env s id relative size =
      if not (is_uuid id)
      then (err invalid_request, s)
      else if not (validate_relative_path p relative)
      then (err path_traversal, s)
      else if ltb_ℤ size (pos 0)
      then (err invalid_request, s)
      else elim (Dict.lookup id s.uploading) [
        | none ↦ (err not_found, s)
        | some files ↦
            let begun = begin_stage_upload s id in
            elim (open_staged env id files relative size) [
              | err e ↦ (err e, end_stage_upload begun id)
              | ok target ↦ (
                ok target,
                record begun {
                  uploading = Dict.insert id (target ∷ files) begun.uploading;
                  uploads = id ∷ begun.uploads;
                },
              )
            ]
      ]

  abbrev without : String → List String → List String
  without target [] = []
  without target (f ∷ fs) = if f == target then fs else f ∷ without target fs

  abbrev dropped : String → String → Dict String (List String) → Dict String (List String)
  dropped id target sessions = elim (Dict.lookup id sessions) [
    | none ↦ sessions
    | some files ↦ Dict.insert id (without target files) sessions
  ]

  -- The end of an upload that was started: `complete` says whether all bytes arrived and were synced;
  -- else the file is removed.
  unfoldable pub end_upload : Bool → Staging → String → String → Staging
  unfolding end_stage_upload finish_one
  end_upload complete s id target =
      let ended = end_stage_upload s id in
      record ended {
        uploading = if complete then ended.uploading else dropped id target ended.uploading;
        uploads = finish_one id ended.uploads;
      }

  -- The loop over the roots in `QueueStage`: the paths to queue.
  unfoldable pub staged_roots :
      (String → String)
      → (String → Bool)
      → (String → String)
      → String
      → List String
      → List String
      → Outcome (List String)
  unfolding secure_join contains_code
  staged_roots to_slash exists_at queued_path uploading seen [] = ok []
  staged_roots to_slash exists_at queued_path uploading seen (root ∷ roots) =
      let name = root_name to_slash root in
      let known = is_one_of (p.to_lower name) seen in
      let rest =
        staged_roots to_slash exists_at queued_path uploading
          (if known then seen else p.to_lower name ∷ seen) roots in
      if not (validate_relative_path p name) || contains_code b'/' name
      then err invalid_request
      else if known
      then rest
      else elim (secure_join p uploading name) [
        | none ↦ err path_traversal
        | some candidate ↦
            if not (exists_at candidate)
            then err invalid_request
            else elim rest [ err e ↦ err e | ok paths ↦ ok (queued_path name ∷ paths) ]
      ]

  -- `QueueStage` up to its rename: the paths to queue.
  unfoldable pub queue_check :
      (String → String)
      → (String → Bool)
      → (String → String)
      → Staging
      → String
      → List String
      → Outcome (List String)
  unfolding stage_upload_active staged_roots
  queue_check to_slash exists_at queued_path s id roots =
      if not (is_uuid id)
      then err invalid_request
      else if is_empty roots
      then err invalid_request
      else if stage_upload_active s id
      then err invalid_state
      else staged_roots to_slash exists_at queued_path (root_of id) [] roots

  -- The rename, and the one back where `Queue` fails.
  unfoldable pub queue_promote :
      Bool → Bool → Outcome Transfer → Staging → String → Outcome Transfer × Staging
  queue_promote rename_fails rollback_fails queue_result s id =
      if rename_fails then (err (other "rename"), s) else elim (Dict.lookup id s.uploading) [
        | none ↦ (err not_found, s)
        | some files ↦
            let moved = record s {
              uploading = Dict.erase id s.uploading;
              queued = Dict.insert id files s.queued;
            } in
            elim queue_result [
              | ok t ↦ (ok t, moved)
              | err e ↦ (err e, if rollback_fails then moved else s)
            ]
      ]

  unfoldable pub delete_stage : Bool → Staging → String → Option TransferError × Staging
  unfolding stage_upload_active
  delete_stage fails s id =
      if not (is_uuid id)
      then (some invalid_request, s)
      else if stage_upload_active s id
      then (some invalid_state, s)
      else if fails
      then (some (other "remove"), s)
      else (none, record s { uploading = Dict.erase id s.uploading })

abbrev pub day : ℕ
day = 24 * 60 * 60 * 1_000_000_000

-- The loop of `removeExpiredStages` over the entries of the directory. `modified` is none where an
-- entry is no directory or cannot be asked.
unfoldable pub remove_expired :
    ℕ → (String → Option ℕ) → (String → Bool) → Staging → List String → Staging
unfolding stage_upload_active
remove_expired now modified remove_fails s [] = s
remove_expired now modified remove_fails s (id ∷ ids) =
    let old : Bool = elim (modified id) [ none ↦ false | some at ↦ ltb day (now - at) ] in
    remove_expired now modified remove_fails
      (if not (stage_upload_active s id) && old && not (remove_fails id)
        then record s { uploading = Dict.erase id s.uploading }
        else s)
      ids
