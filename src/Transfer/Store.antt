-- ===== src/Transfer/Store.antt =====
-- The tables of backend/internal/transfer/sqlite_store.go: the transfers, with times in milliseconds,
-- their files, their chunks, and the four tables that mirror their states. A call's first argument
-- says whether the database fails it.
use sync_space.Base.{
  ℕ, String, Bool, true, false, Option, none, some, List, [], ◌∷◌, ◌*◌, ◌/◌, if◌then◌else◌,
  string_eq, pair_eq, ◌==◌, map,
}
use sync_space.Base.Dict
use sync_space.Base.Dict.{Dict}
use sync_space.Base.Int.{ℤ, ltb_ℤ, int_eq}
use Prim.Native.String.{compare}
use Prim.Native.Nat.{Ordering}
use sync_space.Transfer.Models.{
  Status, queued, preparing, connecting, negotiating, sending, receiving, paused, resuming,
  completed, cancelled, failed, verifying, Transfer, File, Chunk, Outcome, ok, err, not_found,
  storage,
}

pub record Tables : Type 0 where
  pub transfers : Dict String Transfer
  pub files : Dict (String × String) File
  pub chunks : Dict (String × (String × ℤ)) Chunk
  pub queued_transfers : Dict String (ℤ × ℕ)
  pub transfer_history : Dict String (Status × ℕ)
  pub failed_transfers : Dict String (String × ℕ)
  pub paused_transfers : Dict String ℕ

abbrev pub milli : ℕ → ℕ
milli t = t / 1_000_000

abbrev pub from_milli : ℕ → ℕ
from_milli ms = ms * 1_000_000

-- `nullableTime` and back
abbrev pub optional : (ℕ → ℕ) → Option ℕ → Option ℕ
optional f none = none
optional f (some t) = some (f t)

-- An update leaves the row's `created_at`.
abbrev pub created : Option Transfer → ℕ → ℕ
created none at = at
created (some row) at = row.created_at

unfoldable pub to_row : Option Transfer → Transfer → Transfer
to_row existing t = record t {
  files = [];
  started_at = optional milli t.started_at;
  finished_at = optional milli t.finished_at;
  created_at = created existing (milli t.created_at);
  updated_at = milli t.updated_at;
}

unfoldable pub scan_transfer : Transfer → Transfer
scan_transfer row = record row {
  started_at = optional from_milli row.started_at;
  finished_at = optional from_milli row.finished_at;
  created_at = from_milli row.created_at;
  updated_at = from_milli row.updated_at;
}

-- By the relative path, and for chunks by the file and the index, in the order of the bytes.
abbrev is_before : String → String → Bool
is_before a b = elim (compare a b) [ Ordering.lt ↦ true | _ ↦ false ]

unfoldable pub place_file : File → List File → List File
place_file f [] = f ∷ []
place_file f (g ∷ gs) =
    if is_before g.relative_path f.relative_path then g ∷ place_file f gs else f ∷ g ∷ gs

unfoldable pub files_of : String → Dict (String × String) File → List File
unfolding place_file
files_of id [] = []
files_of id (((owner, file_id), f) ∷ rest) =
    let fs = files_of id rest in if owner == id then place_file f fs else fs

abbrev chunk_before : Chunk → Chunk → Bool
chunk_before a b =
    if a.file_id == b.file_id then ltb_ℤ a.index b.index else is_before a.file_id b.file_id

unfoldable pub place_chunk : Chunk → List Chunk → List Chunk
place_chunk c [] = c ∷ []
place_chunk c (d ∷ ds) = if chunk_before d c then d ∷ place_chunk c ds else c ∷ d ∷ ds

unfoldable pub chunks_of : String → Dict (String × (String × ℤ)) Chunk → List Chunk
unfolding place_chunk
chunks_of id [] = []
chunks_of id (((owner, key), c) ∷ rest) =
    let cs = chunks_of id rest in if owner == id then place_chunk c cs else cs

-- The transfer of a row, with its files.
abbrev pub loaded : Tables → Transfer → Transfer
loaded s row = record (scan_transfer row) { files = files_of row.id s.files }

unfoldable pub put_files :
    String → List File → Dict (String × String) File → Dict (String × String) File
put_files id [] files = files
put_files id (f ∷ fs) files = put_files id fs (Dict.insert (id, f.id) f files)

abbrev pub finish_time : Transfer → ℕ
finish_time t = elim t.finished_at [ none ↦ milli t.updated_at | some at ↦ milli at ]

-- The tables without the mirrors of a transfer.
abbrev pub unmirrored : Tables → String → Tables
unmirrored s id = record s {
  queued_transfers = Dict.erase id s.queued_transfers;
  transfer_history = Dict.erase id s.transfer_history;
  failed_transfers = Dict.erase id s.failed_transfers;
  paused_transfers = Dict.erase id s.paused_transfers;
}

abbrev pub in_queue : Tables → Transfer → Tables
in_queue s t = record s {
  queued_transfers = Dict.insert t.id (t.priority, milli t.updated_at) s.queued_transfers;
}

abbrev pub in_history : Tables → Transfer → Tables
in_history s t = record s {
  transfer_history = Dict.insert t.id (t.status, finish_time t) s.transfer_history;
}

abbrev pub in_failed : Tables → Transfer → Tables
in_failed s t = record s {
  failed_transfers = Dict.insert t.id (t.error, milli t.updated_at) s.failed_transfers;
}

abbrev pub in_paused : Tables → Transfer → Tables
in_paused s t = record s {
  paused_transfers = Dict.insert t.id (milli t.updated_at) s.paused_transfers;
}

-- The `switch` on the status, for a transfer in no mirror.
unfoldable pub mirrored : Status → Tables → Transfer → Tables
mirrored queued s t = in_queue s t
mirrored preparing s t = in_queue s t
mirrored connecting s t = in_queue s t
mirrored negotiating s t = in_queue s t
mirrored resuming s t = in_queue s t
mirrored completed s t = in_history s t
mirrored cancelled s t = in_history s t
mirrored failed s t = in_failed s t
mirrored paused s t = in_paused s t
mirrored sending s t = s
mirrored receiving s t = s
mirrored verifying s t = s

abbrev pub with_row : Tables → Transfer → Tables
with_row s t = record s {
  transfers = Dict.insert t.id (to_row (Dict.lookup t.id s.transfers) t) s.transfers;
  files = put_files t.id t.files s.files;
}

-- `SaveTransfer`, one transaction
unfoldable pub save_transfer : Bool → Tables → Transfer → Option Tables
unfolding to_row mirrored put_files
save_transfer fails s t =
    if fails then none else some (mirrored t.status (unmirrored (with_row s t) t.id) t)

unfoldable pub get_transfer : Bool → Tables → String → Outcome Transfer
unfolding scan_transfer files_of
get_transfer fails s id =
    if fails
    then err storage
    else elim (Dict.lookup id s.transfers) [ none ↦ err not_found | some row ↦ ok (loaded s row) ]

abbrev pub is_past : Status → Bool
is_past completed = true
is_past cancelled = true
is_past failed = true
is_past _ = false

unfoldable pub current : Dict String Transfer → Dict String Transfer
current [] = []
current ((id, t) ∷ ts) = let rest = current ts in if is_past t.status then rest else (id, t) ∷ rest

abbrev is_past_row : Option Transfer → Bool
is_past_row none = false
is_past_row (some t) = is_past t.status

-- The entries whose transfer is not past.
unfoldable pub current_of {ℓ κ} :
    {K : Type ℓ} {V : Type κ} → (K → String) → Dict String Transfer → Dict K V → Dict K V
current_of owner ts [] = []
current_of owner ts ((k, v) ∷ d) =
    let rest = current_of owner ts d in
    if is_past_row (Dict.lookup (owner k) ts) then rest else (k, v) ∷ rest

-- `DeleteHistory`, one transaction
unfoldable pub delete_history : Bool → Tables → Option Tables
unfolding current current_of
delete_history fails s =
    if fails
    then none
    else some (record s {
      chunks = current_of (λ k. k.0) s.transfers s.chunks;
      files = current_of (λ k. k.0) s.transfers s.files;
      transfers = current s.transfers;
      transfer_history = [];
      failed_transfers = [];
    })

abbrev pub chunk_key : Chunk → String × (String × ℤ)
chunk_key c = (c.transfer_id, (c.file_id, c.index))

-- `SaveChunk`, with its time in milliseconds
unfoldable pub save_chunk : Bool → Tables → Chunk → Option Tables
save_chunk fails s c =
    if fails
    then none
    else some (record s {
      chunks = Dict.insert (chunk_key c) (record c { updated_at = milli c.updated_at }) s.chunks;
    })

abbrev pub scan_chunk : Chunk → Chunk
scan_chunk c = record c { updated_at = from_milli c.updated_at }

-- `ListChunks`
unfoldable pub list_chunks : Tables → String → List Chunk
unfolding chunks_of
list_chunks s id = map scan_chunk (chunks_of id s.chunks)
