-- ===== src/Transfer/Receiving.antt =====
-- The arrival of a chunk (`ReceiveChunk`, `refreshProgress` and `ProtocolStatus` of
-- backend/internal/transfer/service.go). What a file operation
-- answers is an argument, and so is the rate, which Go computes in floating point.
pub mod Admission
pub mod Bytes
pub mod Reassembly
use sync_space.Base.{
  ℕ, zero, suc, ◌+◌, ◌-◌, String, ◌<>◌, Bool, true, false, not, ◌&&◌, ◌||◌, Option, none, some,
  List, [], ◌∷◌, ◌++◌, if◌then◌else◌, ltb, leb, ◌==◌, string_eq, nat_eq, length, take,
}
use sync_space.Base.Dict
use sync_space.Base.Dict.{Dict}
use sync_space.Base.Int.{
  ℤ, pos, negsuc, int_eq, ltb_ℤ, leb_ℤ, wrap64, add64, sub64, div64, ◌+ℤ◌, ◌-ℤ◌, ◌/ℤ◌,
}
use sync_space.Transfer.Models.{
  Status, receiving, resuming, paused, cancelled, completed, failed, File, Chunk, chunk_complete,
  is_complete, Transfer, ResumeMap, EventType, progressed, Outcome, ok, err, invalid_request,
  invalid_state, unauthorized, approval_required, checksum_mismatch, storage, other,
}
use sync_space.Transfer.Store
use sync_space.Transfer.Paths.{Platform, secure_join}
use sync_space.Transfer.Chunks.{chunk_offset, expected_size}
use sync_space.Transfer.Externals.{Externals, valid_sha256, token_matches}
use sync_space.Transfer.Parts.{Contents, Parts, write_at, bytes_of, put_part, partial_path}
use sync_space.Transfer.Control.{Service, Env, save, get}

-- What the disk and the database answer while a chunk arrives; `written` is how many bytes a failed
-- write has written.
pub record ChunkEnv : Type 0 where
  pub env : Env
  pub mkdir_fails : Bool
  pub open_fails : Bool
  pub written : Option ℕ
  pub sync_fails : Bool
  pub close_fails : Bool
  pub chunk_fails : Bool
  pub again_fails : Bool
  pub list_fails : Bool

-- One request.
pub record ChunkRequest : Type 0 where
  pub id : String
  pub file_id : String
  pub token : String
  pub index : ℤ
  pub checksum : String
  pub encoding : String
  pub body : List ℕ

unfoldable pub find_file : List File → String → Option File
find_file [] id = none
find_file (f ∷ fs) id = if f.id == id then some f else find_file fs id

abbrev pub is_receiving : Status → Bool
is_receiving receiving = true
is_receiving resuming = true
is_receiving _ = false

abbrev is_stopped : Status → Bool
is_stopped paused = true
is_stopped cancelled = true
is_stopped completed = true
is_stopped failed = true
is_stopped _ = false

-- The sum of the sizes of the complete chunks.
unfoldable pub complete_size : ℤ → List Chunk → ℤ
complete_size total [] = total
complete_size total (c ∷ cs) =
    complete_size (if is_complete c.status then add64 total c.size else total) cs

abbrev second : ℕ
second = 1_000_000_000

-- The time since the start, and at least a second.
abbrev elapsed_since : ℕ → Option ℕ → ℕ
elapsed_since now none = second
elapsed_since now (some start) = if ltb second (now - start) then now - start else second

module _ (p : Platform) (c : Contents) where
  abbrev measured : Transfer → ℤ → ℕ → Transfer
  measured t progress now =
      let speed =
        if is_stopped t.status then pos 0 else c.rate progress (elapsed_since now t.started_at) in
      record t {
        progress = progress;
        speed = speed;
        eta_seconds =
            if ltb_ℤ (pos 0) speed && ltb_ℤ progress t.size
            then div64 (sub64 t.size progress) speed
            else if is_stopped t.status
            then pos 0
            else t.eta_seconds;
        updated_at = now;
      }

  unfoldable pub refresh_progress :
      Env → Bool → Bool → Service → String → Outcome Transfer × Service
  unfolding complete_size save ◌-ℤ◌ ◌/ℤ◌ wrap64
  refresh_progress env again_fails list_fails s id =
      elim (Store.get_transfer again_fails s.tables id) [
        | err e ↦ (err e, s)
        | ok t ↦
            if list_fails
            then (err storage, s)
            else save env s
                (measured t (complete_size (pos 0) (Store.list_chunks s.tables id)) env.now)
                progressed
      ]

  -- What is read of the body, one byte more than expected at most.
  unfoldable pub read_body : String → List ℕ → ℕ → Outcome (List ℕ)
  read_body encoding body limit =
      if encoding == ""
      then ok (take limit body)
      else if not (encoding == "gzip")
      then err invalid_request
      else elim (c.gunzip (take 16_777_217 body)) [
        | none ↦ err invalid_request
        | some read ↦ elim (read limit) [ none ↦ err (other "gzip") | some bytes ↦ ok bytes ]
      ]

  abbrev written_bytes : Option ℕ → List ℕ → List ℕ
  written_bytes none buffer = buffer
  written_bytes (some n) buffer = take n buffer

  abbrev pub new_chunk : ChunkRequest → File → ℤ → String → ℕ → Chunk
  new_chunk q f size checksum now = record {
    transfer_id = q.id;
    file_id = q.file_id;
    index = q.index;
    offset = chunk_offset f q.index;
    size = size;
    checksum = checksum;
    status = chunk_complete;
    attempts = pos 1;
    updated_at = now;
  }

  -- From the verified bytes on.
  unfoldable pub store_chunk :
      ChunkEnv → Service → Parts → ChunkRequest → File → List ℕ → Outcome Transfer × Service × Parts
  unfolding refresh_progress chunk_offset write_at partial_path
  store_chunk env s parts q f buffer =
      if env.mkdir_fails || env.open_fails
      then (err (other "open"), s, parts)
      else elim (chunk_offset f q.index) [
        | negsuc n ↦ (
          err (other "negative offset"),
          s,
          put_part (partial_path p c q.id f.relative_path) 0 [] parts,
        )
        | pos offset ↦
            let after =
              put_part (partial_path p c q.id f.relative_path) offset
                (written_bytes env.written buffer) parts in
            elim env.written [
              | some n ↦ (err (other "write"), s, after)
              | none ↦
                  if env.sync_fails || env.close_fails
                  then (err (other "sync"), s, after)
                  else elim (Store.save_chunk env.chunk_fails s.tables
                      (new_chunk q f (pos (length buffer)) (c.checksum_bytes buffer) env.env.now)) [
                        | none ↦ (err storage, s, after)
                        | some tables ↦
                            let (result, next) =
                              refresh_progress env.env env.again_fails env.list_fails
                                (record s { tables = tables }) q.id in
                            (result, next, after)
                      ]
            ]
      ]

  module _ (x : Externals) where
    -- The file, where the request names one with the index and states a checksum.
    unfoldable pub requested_file : List File → ChunkRequest → Option File
    unfolding find_file valid_sha256
    requested_file files q = elim (find_file files q.file_id) [
      | none ↦ none
      | some f ↦
          if f.directory
            || ltb_ℤ q.index (pos 0)
            || leb_ℤ f.chunk_count q.index
            || not (valid_sha256 x q.checksum)
          then none
          else some f
    ]

    -- `io.LimitReader` reads nothing at a limit of zero or below.
    abbrev pub read_limit : ℤ → ℕ
    read_limit (pos n) = n + 1
    read_limit (negsuc n) = 0

    -- The checks of the contents: the bytes, of the expected size and checksum.
    unfoldable pub verified_bytes : ChunkRequest → File → Outcome (List ℕ)
    unfolding read_body expected_size
    verified_bytes q f = elim (read_body q.encoding q.body (read_limit (expected_size f q.index))) [
      | err e ↦ err e
      | ok buffer ↦
          if not (pos (length buffer) == expected_size f q.index)
          then err invalid_request
          else if not (c.checksum_bytes buffer == q.checksum)
          then err checksum_mismatch
          else ok buffer
    ]

    unfoldable pub receive_chunk :
        ChunkEnv → Service → Parts → ChunkRequest → Outcome Transfer × Service × Parts
    unfolding get requested_file verified_bytes store_chunk token_matches
    receive_chunk env s parts q = elim (get x.is_uuid env.env s q.id) [
      | err e ↦ (err e, s, parts)
      | ok t ↦
          if not (token_matches x t.session_token_hash q.token)
          then (err unauthorized, s, parts)
          else if not t.approved
          then (err approval_required, s, parts)
          else if not (is_receiving t.status)
          then (err invalid_state, s, parts)
          else elim (requested_file t.files q) [
            | none ↦ (err invalid_request, s, parts)
            | some f ↦ elim (verified_bytes q f) [
              | err e ↦ (err e, s, parts)
              | ok buffer ↦ store_chunk env s parts q f buffer
            ]
          ]
    ]

    -- The indices of the complete chunks, by file.
    unfoldable pub complete_indices : List Chunk → List (String × ℤ)
    complete_indices [] = []
    complete_indices (k ∷ ks) =
        let rest = complete_indices ks in
        if is_complete k.status then (k.file_id, k.index) ∷ rest else rest

    unfoldable pub protocol_status : Env → Bool → Service → String → String → Outcome ResumeMap
    unfolding get complete_indices token_matches
    protocol_status env list_fails s id token = elim (get x.is_uuid env s id) [
      | err e ↦ err e
      | ok t ↦
          if not (token_matches x t.session_token_hash token)
          then err unauthorized
          else if list_fails
          then err storage
          else ok (record {
            transfer_id = id;
            status = t.status;
            approved = t.approved;
            chunks = complete_indices (Store.list_chunks s.tables id);
          })
    ]
