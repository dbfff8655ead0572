-- ===== src/Transfer/Models.antt =====
-- The states and the record of a transfer (backend/internal/transfer/models.go, errors.go), with its
-- files, chunks and the messages of the protocol.
use sync_space.Base.{ℕ, String, Bool, true, false, List, Option, ◌≡◌, refl, ◌⊎◌, inl, inr}
use sync_space.Base.Int.{ℤ}

pub data Status : Type 0 where
  queued preparing connecting negotiating sending receiving : Status
  paused resuming completed cancelled failed verifying : Status

pub data Direction : Type 0 where
  outbound inbound : Direction

abbrev pub is_inbound : Direction → Bool
is_inbound inbound = true
is_inbound outbound = false

pub record File : Type 0 where
  pub id : String
  pub relative_path : String
  pub directory : Bool
  pub source_path : String
  pub destination_path : String
  pub size : ℤ
  pub checksum : String
  pub chunk_size : ℤ
  pub chunk_count : ℤ

pub data ChunkStatus : Type 0 where
  chunk_pending chunk_complete chunk_failed : ChunkStatus

abbrev pub is_complete : ChunkStatus → Bool
is_complete chunk_complete = true
is_complete _ = false

pub record Chunk : Type 0 where
  pub transfer_id : String
  pub file_id : String
  pub index : ℤ
  pub offset : ℤ
  pub size : ℤ
  pub checksum : String
  pub status : ChunkStatus
  pub attempts : ℤ
  pub updated_at : ℕ

pub record Transfer : Type 0 where
  pub id : String
  pub direction : Direction
  pub device_id : String
  pub device_name : String
  pub device_hostname : String
  pub device_platform : String
  pub remote_address : String
  pub filename : String
  pub path : String
  pub source_paths : List String
  pub files : List File
  pub size : ℤ
  pub checksum : String
  pub status : Status
  pub progress : ℤ
  pub speed : ℤ
  pub eta_seconds : ℤ
  pub started_at : Option ℕ
  pub finished_at : Option ℕ
  pub created_at : ℕ
  pub updated_at : ℕ
  pub error : String
  pub attempts : ℤ
  pub priority : ℤ
  pub approved : Bool
  pub approval_required : Bool
  pub conflict_policy : String
  pub chunk_size : ℤ
  pub compression : Bool
  pub protocol_version : ℤ
  pub session_token : String
  pub session_token_hash : String

pub record Offer : Type 0 where
  pub transfer_id : String
  pub device_id : String
  pub device_name : String
  pub device_hostname : String
  pub device_platform : String
  pub session_token : String
  pub filename : String
  pub size : ℤ
  pub files : List File
  pub chunk_size : ℤ
  pub compression : Bool
  pub protocol_version : ℤ

pub record PeerAuthentication : Type 0 where
  pub device_id : String
  pub timestamp : String
  pub nonce : String
  pub signature : String

pub record QueueRequest : Type 0 where
  pub device_id : String
  pub paths : List String
  pub conflict_policy : String

pub record AcceptRequest : Type 0 where
  pub destination_path : String
  pub conflict_policy : String

-- The complete chunks, by file, in the order of the table.
pub record ResumeMap : Type 0 where
  pub transfer_id : String
  pub status : Status
  pub approved : Bool
  pub chunks : List (String × ℤ)

pub data EventType : Type 0 where
  queue_updated progressed paused_event resumed_event completed_event failed_event verification :
      EventType

pub record Event : Type 0 where
  pub type : EventType
  pub transfer : Transfer
  pub timestamp : ℕ

-- `storage` stands for an error of the database, `other` for one that a worker ran into.
pub data TransferError : Type 0 where
  not_found invalid_request invalid_state unauthorized storage : TransferError
  untrusted_device approval_required checksum_mismatch path_traversal : TransferError
  conflict_resolution insufficient_storage : TransferError
  other : String → TransferError

pub data Outcome (A : Type 0) : Type 0 where
  ok : A → Outcome A
  err : TransferError → Outcome A

pub Outcome-cases :
    {A : Type 0} (o : Outcome A) → ((e : TransferError) × (o ≡ err e)) ⊎ ((a : A) × (o ≡ ok a))
Outcome-cases (ok a) = inr (a, refl)
Outcome-cases (err e) = inl (e, refl)
