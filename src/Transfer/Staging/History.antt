-- ===== src/Transfer/Staging/History.antt =====
-- Histories of the upload areas (backend/internal/transfer/staging.go).
use sync_space.Base.{ℕ, String, Bool, Option, List, [], ◌∷◌, if◌then◌else◌, string_eq}
use sync_space.Base.Int.{ℤ}
use sync_space.Transfer.Models.{Transfer, Outcome}
use sync_space.Transfer.Paths.{Platform, is_one_of}
use sync_space.Transfer.Staging.{
  Staging, UploadEnv, start_upload, create_stage, queue_promote, delete_stage, remove_expired,
  end_upload,
}

-- What the service does to its stages, step by step, with the answers of the disk.
pub data Action : Type 0 where
  creates : Bool → String → Action
  starts : UploadEnv → String → String → ℤ → Action
  ends : Bool → String → String → Action
  promotes : Bool → Bool → Outcome Transfer → String → Action
  deletes : Bool → String → Action
  expires : ℕ → (String → Option ℕ) → (String → Bool) → List String → Action

module _ (p : Platform) (is_uuid : String → Bool) (root_of : String → String) where
  -- An upload ends only if it has started.
  unfoldable pub act : Staging → Action → Staging
  unfolding start_upload create_stage queue_promote delete_stage remove_expired end_upload
  act s (creates fails id) = (create_stage fails s id).1
  act s (starts env id relative size) = (start_upload p is_uuid root_of env s id relative size).1
  act s (ends complete id target) =
      if is_one_of id s.uploads then end_upload p is_uuid root_of complete s id target else s
  act s (promotes rename_fails rollback_fails result id) =
      (queue_promote p is_uuid root_of rename_fails rollback_fails result s id).1
  act s (deletes fails id) = (delete_stage p is_uuid root_of fails s id).1
  act s (expires now modified remove_fails ids) = remove_expired now modified remove_fails s ids

  unfoldable pub act_all : Staging → List Action → Staging
  act_all s [] = s
  act_all s (a ∷ more) = act_all (act s a) more
