-- ===== src/Transfer/ArrivalTests.antt =====
-- The properties of offers, chunks and their files on concrete inputs (backend/internal/transfer).
use sync_space.Transfer.Paths.{is_windows_reserved_name}
use sync_space.Transfer.Nonces.{use_authentication_nonce}
use sync_space.Base.{join, trim_space}
use sync_space.Base.Int.{wrap64, ◌-ℤ◌}
use sync_space.Transfer.Clock.{valid_protocol_time}
use sync_space.Base.{
  ℕ, zero, suc, String, false, none, some, List, [], ◌∷◌, ◌≡◌, ◌≢◌, ◌⊎◌, inl, inr, str_eq_iff, ap,
  ◌==◌, string_eq, if◌then◌else◌, ◌+◌, refl, arith, ◌*◌, ◌<◌, ◌≤◌, All, split, length,
}
use sync_space.Base.Dict
use sync_space.Base.Int.{pos}
use sync_space.Transfer.Models.{
  Transfer, File, Chunk, chunk_complete, PeerAuthentication, inbound, queued, Outcome, ok, err,
  TransferError,
}
use sync_space.Transfer.Store
use sync_space.Transfer.Store.{Tables}
use sync_space.Transfer.Control.{Service, get}
use sync_space.Transfer.Paths.{validate_relative_path, contains_code}
use sync_space.Transfer.Paths.Walk.{validate_relative_path-walk, walk, below, IsName}
use sync_space.Transfer.Chunks.{
  chunk_count, chunk_offset, expected_size, cut, chunk_count-cut, expected_size-cut,
}
use sync_space.Transfer.Conflicts.{
  Lstat, missing, present, refused, candidate, resolve_conflict, resolve_conflict-missing,
  resolve_conflict-finds,
}
use sync_space.Transfer.Offers.{Receiver, receive_offer}
use sync_space.Transfer.Offers.Stored.{IsChecked, receive_offer_lem}
use sync_space.Transfer.Offers.Replay.{Delivery, deliver, deliver_all, receive_offer-refuses_replay}
use sync_space.Transfer.Receiving.{ChunkEnv, ChunkRequest, receive_chunk, store_chunk}
use sync_space.Transfer.Parts.{Parts, partial_path}
use sync_space.Transfer.Receiving.Admission.{IsAdmitted, receive_chunk_lem}
use sync_space.Transfer.Receiving.Reassembly.{
  Write, write_all, contents_at, HasPiece, write_all-content,
}
use sync_space.Transfer.Finalizing.{FinalEnv, finalize}
use sync_space.Transfer.Example.{
  unix, sum, notes, world, laptop, offer, no_tables, env, bytes, incoming, half, store,
}

validate_relative_path-walk_example :
    All IsName (split b'/' "docs/a.txt")
    × (walk ("home" ∷ []) (split b'/' "docs/a.txt") ≡ below ("home" ∷ []) (split b'/' "docs/a.txt"))
    × (contains_code 92 "docs/a.txt" ≡ false)
    × (contains_code 0 "docs/a.txt" ≡ false)
unfolding validate_relative_path split is_windows_reserved_name
validate_relative_path-walk_example =
    validate_relative_path-walk unix ("home" ∷ []) "docs/a.txt" refl

chunk_count-cut_example : chunk_count (pos 10) (pos 4) ≡ pos (length (cut 10 4 10))
chunk_count-cut_example = chunk_count-cut 10 4 (omega arith) (omega arith)

expected_size-cut_example :
    (chunk_offset notes (pos 1) ≡ pos (1 * 4))
    × (expected_size notes (pos 1) ≡ pos 2)
    × (1 * 4 + 2 ≤ 6)
unfolding cut
expected_size-cut_example =
    expected_size-cut notes 6 4 1 2 refl refl (omega arith) (omega arith) (omega arith) refl

-- Only the path itself is taken.
abbrev taken : String → Lstat
taken path = if path == "d" then present else missing

resolve_conflict-missing_example :
    (taken "d/d (1)" ≡ missing)
    ⊎ (◌≡◌ {A = String} "rename" "overwrite" × ◌≡◌ {A = String} "d/d (1)" "d")
unfolding resolve_conflict
resolve_conflict-missing_example = resolve_conflict-missing unix taken "d" "rename" "d/d (1)" refl

never : (name : String) → taken name ≢ refused
never name h = ground (arith, h)

resolve_conflict-finds_example :
    (target : String) × (resolve_conflict unix taken "d" "rename" ≡ ok target)
    × (taken target ≡ missing)
unfolding candidate
resolve_conflict-finds_example =
    resolve_conflict-finds unix taken "d" 7 never (omega arith) (omega arith) refl

abbrev auth : PeerAuthentication
auth = record {
  device_id = "a1";
  timestamp = "1";
  nonce = "n";
  signature = "keyPOST\n/v1/transfers/offers\na1\n1\nn\na.txt";
}

abbrev receiver : Receiver
receiver = record {
  service = record { tables = no_tables; published = [] };
  auth_nonces = [];
  peers = laptop ∷ [];
}

abbrev first : Delivery
first = record { env = env; offer = offer; remote_address = "10.0.0.2"; auth = auth }

accepted : (deliver world unix receiver first).0 ≡ ok incoming
unfolding receive_offer valid_protocol_time wrap64 ◌-ℤ◌ join use_authentication_nonce Dict.lookup
    trim_space validate_relative_path split is_windows_reserved_name chunk_count Store.get_transfer
    Store.save_transfer
accepted = refl

abbrev after : Receiver
after = (deliver world unix receiver first).1

receive_offer_lem_example :
    IsChecked world unix receiver 2_000_000_000 offer "10.0.0.2" auth
    × (Store.save_transfer false receiver.service.tables incoming ≡ some after.service.tables)
    × (incoming.id ≡ "t1")
    × (incoming.status ≡ queued)
    × (incoming.direction ≡ inbound)
    × (incoming.approved ≡ false)
    × (incoming.files ≡ notes ∷ [])
unfolding Store.get_transfer Dict.lookup
receive_offer_lem_example =
    receive_offer_lem world unix env receiver after offer "10.0.0.2" auth incoming refl
      (ap (λ o. (o, after)) accepted)

receive_offer-refuses_replay_example :
    (e : TransferError) × ((deliver world unix (deliver_all world unix after (first ∷ [])) first).0
      ≡ err e)
    × ((deliver world unix (deliver_all world unix after (first ∷ [])) first).1.service
        ≡ (deliver_all world unix after (first ∷ [])).service)
receive_offer-refuses_replay_example =
    receive_offer-refuses_replay world unix receiver first incoming (first ∷ []) first accepted
      (omega arith, tt) (omega arith) refl

abbrev fine : ChunkEnv
fine = record {
  env = env;
  mkdir_fails = false;
  open_fails = false;
  written = none;
  sync_fails = false;
  close_fails = false;
  chunk_fails = false;
  again_fails = false;
  list_fails = false;
}

abbrev request : ChunkRequest
request = record {
  id = "t1";
  file_id = "f1";
  token = sum;
  index = pos 1;
  checksum = sum;
  encoding = "";
  body = 5 ∷ 6 ∷ [];
}

abbrev no_parts : Parts
no_parts = []

receive_chunk_lem_example :
    (((receive_chunk unix bytes world fine store no_parts request).1 ≡ store)
      × ((receive_chunk unix bytes world fine store no_parts request).2 ≡ no_parts))
    ⊎ ((t : Transfer) × (f : File) × (buffer : List ℕ) × (get world.is_uuid env store "t1" ≡ ok t)
        × IsAdmitted unix bytes world t f buffer request
        × (receive_chunk unix bytes world fine store no_parts request
            ≡ store_chunk unix bytes fine store no_parts request f buffer))
receive_chunk_lem_example = receive_chunk_lem unix bytes world fine store no_parts request

-- The second chunk, another file's, the first, and the second again.
abbrev writes : List Write
writes =
    record { path = "p"; offset = 4; bytes = 5 ∷ 6 ∷ [] }
    ∷ record { path = "q"; offset = 0; bytes = 9 ∷ [] }
    ∷ record { path = "p"; offset = 0; bytes = 1 ∷ 2 ∷ 3 ∷ 4 ∷ [] }
    ∷ record { path = "p"; offset = 4; bytes = 5 ∷ 6 ∷ [] }
    ∷ []

abbrev content : List ℕ
content = 1 ∷ 2 ∷ 3 ∷ 4 ∷ 5 ∷ 6 ∷ []

every_chunk : (i : ℕ) → i * 4 < length content → HasPiece "p" content 4 i writes
every_chunk zero h = inr (inr (inl (refl, refl, refl, omega arith)))
every_chunk (suc zero) h = inl (refl, refl, refl, omega arith)
every_chunk (suc (suc i)) h = absurd (omega (arith, h))

write_all-content_example : contents_at "p" (write_all no_parts writes) ≡ content
unfolding Dict.lookup
write_all-content_example =
    write_all-content "p" content 4 writes no_parts (omega arith)
      (
        inr (1, (refl, refl, refl, omega arith)),
        (
          inl (λ h. ground (arith, h, str_eq_iff "q" "p")),
          (
            inr (0, (refl, refl, refl, omega arith)),
            (inr (1, (refl, refl, refl, omega arith)), tt),
          ),
        ),
      )
      every_chunk (omega arith)

abbrev chunk : ℕ → Chunk
chunk i = record {
  transfer_id = "t1";
  file_id = "f1";
  index = pos i;
  offset = pos (i * 4);
  size = pos 4;
  checksum = sum;
  status = chunk_complete;
  attempts = pos 1;
  updated_at = 0;
}

abbrev full : Service
full = record store {
  tables = record store.tables {
    chunks = (("t1", ("f1", pos 0)), chunk 0) ∷ (("t1", ("f1", pos 1)), chunk 1) ∷ [];
  };
}

abbrev calm : FinalEnv
calm = record {
  env = env;
  list_fails = false;
  finish_fails = false;
  create_fails = λ path. false;
  read_fails = λ path. false;
  mkdir_fails = λ path. false;
  lstat = λ path. missing;
  disk_error = "";
  commit_fails = λ source target overwrite. false;
}

abbrev whole_part : Parts
whole_part = (partial_path unix bytes "t1" notes.relative_path, 1 ∷ 2 ∷ 3 ∷ 4 ∷ 5 ∷ 6 ∷ []) ∷ []

abbrev finalized : Outcome Transfer × Service × List (String × String)
finalized = finalize unix bytes world calm full whole_part "t1" sum

abbrev transfer_of : Outcome Transfer → Transfer
transfer_of (ok t) = t
transfer_of (err e) = half
