-- ===== src/Transfer/Finalizing.antt =====
-- The end of a received transfer (`Finalize` of backend/internal/transfer/service.go). What the disk
-- answers is an argument; of `commitFile` it is whether it fails.
pub mod Verified
use sync_space.Base.{
  ℕ, suc, String, ◌<>◌, Bool, true, false, not, ◌&&◌, ◌||◌, Option, none, some, List, [], ◌∷◌,
  if◌then◌else◌, ◌==◌, string_eq,
}
use sync_space.Base.Dict
use sync_space.Base.Dict.{Dict}
use sync_space.Base.Int.{ℤ, pos, int_eq}
use sync_space.Transfer.Models.{
  Status, verifying, completed, failed, File, Chunk, is_complete, Transfer, EventType, verification,
  completed_event, failed_event, TransferError, Outcome, ok, err, conflict_resolution, unauthorized,
  approval_required, invalid_state, storage, other,
}
use sync_space.Transfer.Store
use sync_space.Transfer.Paths.{Platform}
use sync_space.Transfer.Conflicts.{Lstat, resolve_conflict}
use sync_space.Transfer.Externals.{Externals, token_matches}
use sync_space.Transfer.Control.{Service, Env, save, finish, get}
use sync_space.Transfer.Receiving.{is_receiving}
use sync_space.Transfer.Parts.{Contents, Parts, partial_path}

-- The answers of the disk and the database; the second save is the one of the end.
pub record FinalEnv : Type 0 where
  pub env : Env
  pub list_fails : Bool
  pub finish_fails : Bool
  pub create_fails : String → Bool
  pub read_fails : String → Bool
  pub mkdir_fails : String → Bool
  pub lstat : String → Lstat
  pub disk_error : String
  pub commit_fails : String → String → Bool → Bool

abbrev pub has_index : ℤ → List ℤ → Bool
has_index i [] = false
has_index i (j ∷ js) = if i == j then true else has_index i js

-- The indices of a file's complete chunks, each once.
unfoldable pub complete_of : String → List Chunk → List ℤ
complete_of id [] = []
complete_of id (k ∷ ks) =
    let rest = complete_of id ks in
    if is_complete k.status && k.file_id == id && not (has_index k.index rest)
    then k.index ∷ rest
    else rest

abbrev pub count_of : List ℤ → ℕ
count_of [] = 0
count_of (i ∷ is) = suc (count_of is)

-- The text that `err.Error()` puts into the transfer.
pub data Failure : Type 0 where
  missing_chunks bad_checksum : String → Failure
  no_destination : Failure
  unresolved : TransferError → Failure
  disk : Failure

-- What `checksumFile` opens: the part file, which was created empty before for a file of no size; none
-- where there is no such file.
abbrev pub opened : File → Option (List ℕ) → Option (List ℕ)
opened f (some contents) = some contents
opened f none = if f.size == pos 0 then some [] else none

module _ (p : Platform) (c : Contents) (x : Externals) (env : FinalEnv) where
  -- One round of the loop that verifies.
  unfoldable pub verify_file : Parts → List Chunk → Transfer → File → Option Failure
  unfolding complete_of partial_path
  verify_file parts chunks t f =
      let part = partial_path p c t.id f.relative_path in
      if f.directory
      then none
      else if not (pos (count_of (complete_of f.id chunks)) == f.chunk_count)
      then some (missing_chunks f.relative_path)
      else if f.size == pos 0 && env.create_fails part
      then some disk
      else if env.read_fails part
      then some disk
      else elim (opened f (Dict.lookup part parts)) [
        | none ↦ some disk
        | some contents ↦
            if not (c.checksum_bytes contents == f.checksum)
            then some (bad_checksum f.relative_path)
            else none
      ]

  unfoldable pub verify_files : Parts → List Chunk → Transfer → List File → Option Failure
  unfolding verify_file
  verify_files parts chunks t [] = none
  verify_files parts chunks t (f ∷ fs) = elim (verify_file parts chunks t f) [
    | some e ↦ some e
    | none ↦ verify_files parts chunks t fs
  ]

  -- The loop that puts the files in place, with the pairs of part file and target that it has moved.
  unfoldable pub commit_files :
      Transfer → List (String × String) → List File → Option Failure × List (String × String)
  unfolding resolve_conflict partial_path
  commit_files t moved [] = (none, moved)
  commit_files t moved (f ∷ fs) =
      if f.destination_path == ""
      then (some no_destination, moved)
      else if f.directory
      then (let rest = commit_files t moved fs in
          if env.mkdir_fails f.destination_path then (some disk, moved) else rest)
      else elim (resolve_conflict p env.lstat f.destination_path t.conflict_policy) [
        | err e ↦ (some (unresolved e), moved)
        | ok target ↦
            let part = partial_path p c t.id f.relative_path in
            let rest = commit_files t ((part, target) ∷ moved) fs in
            if env.commit_fails part target (t.conflict_policy == "overwrite")
            then (some disk, moved)
            else rest
      ]

  abbrev message : Failure → String
  message (missing_chunks path) = "missing chunks for " <> path
  message (bad_checksum path) = "checksum verification failed: " <> path
  message no_destination = "destination path is missing"
  message (unresolved conflict_resolution) = "destination conflict requires a decision"
  message (unresolved (other text)) = text
  message (unresolved e) = env.disk_error
  message disk = env.disk_error

  -- `fail`
  abbrev fail : Service → Transfer → Failure → Outcome Transfer × Service
  fail s t e =
      let (result, after) =
        finish (record env.env { save_fails = env.finish_fails }) s t failed (message e)
          failed_event in
      elim result [ ok _ ↦ (err (other (message e)), after) | err f ↦ (err f, after) ]

  abbrev pub start_verifying : Transfer → Transfer
  start_verifying t = record t { status = verifying; updated_at = env.env.now }

  -- From the saved state `verifying` on.
  unfoldable pub complete_transfer :
      Service → Parts → String → Transfer → Outcome Transfer × Service × List (String × String)
  unfolding finish verify_files commit_files
  complete_transfer s parts id t =
      if env.list_fails
      then (err storage, s, [])
      else elim (verify_files parts (Store.list_chunks s.tables id) t t.files) [
        | some e ↦ let (result, after) = fail s t e in (result, after, [])
        | none ↦
            let (failure, moved) = commit_files t [] t.files in
            elim failure [
              | some e ↦ let (result, after) = fail s t e in (result, after, moved)
              | none ↦
                  let (result, after) =
                    finish (record env.env { save_fails = env.finish_fails }) s
                      (record t { progress = t.size }) completed "" completed_event in
                  (result, after, moved)
            ]
      ]

  unfoldable pub finalize :
      Service → Parts → String → String → Outcome Transfer × Service × List (String × String)
  unfolding get token_matches save complete_transfer
  finalize s parts id token = elim (get x.is_uuid env.env s id) [
    | err e ↦ (err e, s, [])
    | ok t ↦
        if not (token_matches x t.session_token_hash token)
        then (err unauthorized, s, [])
        else if not t.approved
        then (err approval_required, s, [])
        else if not (is_receiving t.status)
        then (err invalid_state, s, [])
        else (let (saved, after) = save env.env s (start_verifying t) verification in
            elim saved [ err e ↦ (err e, after, []) | ok v ↦ complete_transfer after parts id v ])
  ]
