-- ===== src/Transfer/SendingTests.antt =====
-- The properties of acceptance, dispatch, staging and sending on concrete inputs
-- (backend/internal/transfer).
use sync_space.Transfer.Paths.{is_windows_reserved_name, validate_relative_path}
use sync_space.Base.{split, trim_space}
use sync_space.Transfer.Offers.{offered}
use sync_space.Base.{
  ℕ, zero, suc, String, Bool, true, false, none, some, List, [], ◌∷◌, ◌≡◌, ◌≢◌, ◌⊎◌, string_eq,
  nat_eq, ◌+◌, refl, arith, ◌<>◌, ◌≤◌, length, take, ltb, ◌++◌,
}
use sync_space.Base.Dict
use sync_space.Base.Int.{pos}
use sync_space.Transfer.Models.{
  Transfer, AcceptRequest, ResumeMap, receiving, outbound, queued, Outcome, ok, err, storage,
}
use sync_space.Transfer.Store
use sync_space.Transfer.Control.{Service, get}
use sync_space.Transfer.Conflicts.{missing}
use sync_space.Transfer.Requests.{Sender, accept}
use sync_space.Transfer.Requests.Placed.{IsAccepted, accept-IsAccepted}
use sync_space.Transfer.Dispatch.{dispatch, by_priority, place}
use sync_space.Transfer.Dispatch.Order.{
  waiting_of, IsSorted, dispatch_lem, dispatch-restarts, count_key, count_started,
}
use sync_space.Transfer.Staging.{Staging, UploadEnv, stage_upload_active}
use sync_space.Transfer.Staging.History.{Action, creates, starts, ends, act_all}
use sync_space.Transfer.Staging.Counted.{IsCounted, in_flight, act_all-IsCounted}
use sync_space.Transfer.Receiving.{ChunkRequest, verified_bytes}
use sync_space.Transfer.Parts.{Contents}
use sync_space.Transfer.Sending.{
  Encoding, Attempt, answered, no_answer, read_chunk, chunk_request, send_attempts,
}
use sync_space.Transfer.Sending.Delivered.{IsGzip, chunk_request-verified_bytes}
use sync_space.Transfer.Sending.Attempts.{Succeeds, send_attempts_lem}
use sync_space.Transfer.Sending.Outbound.{WorkerEnv, process_outbound}
use sync_space.Transfer.Sending.Completed.{
  IsDelivered, IsConnected, HasFiles, process_outbound-IsDelivered,
}
use sync_space.Transfer.Example.{
  unix, sum, notes, world, laptop, no_tables, env, bytes, incoming, half,
}

abbrev offered_files : Service
offered_files = record {
  tables = record no_tables {
    transfers = ("t1", record incoming { files = [] }) ∷ [];
    files = (("t1", "f1"), notes) ∷ [];
  };
  published = [];
}

abbrev choice : AcceptRequest
choice = record { destination_path = "/home/me"; conflict_policy = "" }

abbrev acceptance : Outcome Transfer × Service
acceptance =
    accept unix world (λ path. missing) env (λ path. true) (λ path. pos 0) offered_files "t1" choice

abbrev transfer_of : Outcome Transfer → Transfer
transfer_of (ok t) = t
transfer_of (err e) = half

is_accepted : acceptance ≡ (ok (transfer_of acceptance.0), acceptance.1)
unfolding accept Store.get_transfer Dict.lookup offered trim_space validate_relative_path split
    is_windows_reserved_name Store.save_transfer
is_accepted = refl

accept-IsAccepted_example :
    (old : Transfer) × (get world.is_uuid env offered_files "t1" ≡ ok old)
    × IsAccepted unix world (λ path. missing) old "/home/me" (transfer_of acceptance.0)
    × (Store.save_transfer false offered_files.tables (transfer_of acceptance.0)
        ≡ some acceptance.1.tables)
accept-IsAccepted_example =
    accept-IsAccepted unix world (λ path. missing) env (λ path. true) (λ path. pos 0) offered_files
      acceptance.1 "t1" choice (transfer_of acceptance.0) is_accepted

abbrev waiting : String → ℕ → Transfer
waiting id priority = record half {
  id = id;
  direction = outbound;
  status = queued;
  priority = pos priority;
}

abbrev items : List Transfer
items = waiting "b" 7 ∷ half ∷ waiting "a" 3 ∷ waiting "c" 9 ∷ []

dispatch_lem_example :
    (rest : List Transfer) × (length (dispatch 2 ("z" ∷ []) (some items)).0 ≤ 2)
    × ((dispatch 2 ("z" ∷ []) (some items)).1 ++ rest ≡ waiting_of (by_priority items))
    × IsSorted ((dispatch 2 ("z" ∷ []) (some items)).1 ++ rest)
    × ((rest ≡ []) ⊎ (2 ≤ length (dispatch 2 ("z" ∷ []) (some items)).0))
dispatch_lem_example = dispatch_lem 2 ("z" ∷ []) items (omega arith)

abbrev queue : List Transfer
queue = waiting "b" 7 ∷ waiting "a" 3 ∷ waiting "c" 9 ∷ []

sorted_queue : by_priority queue ≡ (waiting "a" 3 ∷ []) ++ waiting "b" 7 ∷ waiting "c" 9 ∷ []
unfolding by_priority place
sorted_queue = refl

dispatch-restarts_example :
    2 ≤ count_key "b" ("b" ∷ []) + count_started "b" (dispatch 3 ("b" ∷ []) (some queue)).1
unfolding waiting_of
dispatch-restarts_example =
    dispatch-restarts 3 ("b" ∷ []) queue (waiting "a" 3 ∷ []) (waiting "c" 9 ∷ []) (waiting "b" 7)
      sorted_queue refl (omega arith) (omega arith)

abbrev stages : Staging
stages = record { uploading = []; queued = []; staging_active = []; uploads = [] }

abbrev room : UploadEnv
room = record { available = pos 100; mkdir_fails = false; open_fails = false }

-- Two uploads of one session, of which one ends.
abbrev actions : List Action
actions =
    creates false "s1"
    ∷ starts room "s1" "a" (pos 3)
    ∷ starts room "s1" "b" (pos 3)
    ∷ ends true "s1" "r/b"
    ∷ []

act_all-IsCounted_example :
    IsCounted "s1" (act_all unix (λ id. true) (λ id. "r") stages actions)
    × (stage_upload_active (act_all unix (λ id. true) (λ id. "r") stages actions) "s1"
        ≡ ltb 0 (in_flight "s1" (act_all unix (λ id. true) (λ id. "r") stages actions).uploads))
unfolding in_flight Dict.lookup
act_all-IsCounted_example = act_all-IsCounted unix (λ id. true) (λ id. "r") stages actions "s1" refl

-- A format that leaves the bytes as they are.
abbrev stored : Encoding
stored = record { type_by_extension = λ ext. "text/plain"; gzip = λ contents. contents }

abbrev reader : Contents
reader = record bytes { gunzip = λ contents. some (λ n. some (take n contents)) }

stored-IsGzip : IsGzip reader stored
stored-IsGzip bs n = ((λ m. some (take m bs)), refl, refl)

abbrev source : List ℕ
source = 1 ∷ 2 ∷ 3 ∷ 4 ∷ 5 ∷ 6 ∷ []

abbrev request : ChunkRequest
request = record {
  id = "t1";
  file_id = "f1";
  token = "";
  index = pos 1;
  checksum = sum;
  encoding = "";
  body = 5 ∷ 6 ∷ [];
}

chunk_request-verified_bytes_example :
    (contents : List ℕ) × (read_chunk notes source (pos 1) ≡ ok contents)
    × (verified_bytes unix reader world request notes ≡ ok contents)
unfolding chunk_request offered
chunk_request-verified_bytes_example =
    chunk_request-verified_bytes unix reader stored world half notes source (pos 1) request
      stored-IsGzip refl refl

-- The second attempt succeeds.
abbrev answers : ℕ → Attempt × Bool
answers zero = (no_answer, false)
answers (suc zero) = (no_answer, false)
answers (suc (suc n)) = (answered 204, false)

send_attempts_lem_example :
    (((send_attempts 3 answers 1 0 0).0 ≢ ok true) ⊎ Succeeds answers 3 1)
    × ((send_attempts 3 answers 1 0 0).2 ≤ 0 + 3)
send_attempts_lem_example = send_attempts_lem 3 answers 1 0 0

abbrev sender : Sender
sender = record {
  chunk_size = pos 4;
  peer_scheme = "https";
  join_host_port = λ host port. host <> (":" <> port);
}

abbrev outgoing : Transfer
outgoing = record half { direction = outbound; status = queued; session_token = "t" }

abbrev sending_files : Service
sending_files = record {
  tables = record no_tables {
    transfers = ("t1", record outgoing { files = [] }) ∷ [];
    files = (("t1", "f1"), notes) ∷ [];
  };
  published = [];
}

abbrev willing : ResumeMap
willing = record {
  transfer_id = "t1";
  status = receiving;
  approved = true;
  chunks = ("f1", pos 0) ∷ [];
}

abbrev worker : WorkerEnv
worker = record {
  env = env;
  manifest = err storage;
  peers = laptop ∷ [];
  new_token = none;
  offer_answer = none;
  polls = err storage ∷ ok willing ∷ [];
  encoding = stored;
  source = λ path. some source;
  answers = λ file index attempt. answers attempt;
  delay = 0;
  complete_answer = none;
}

abbrev finished : Outcome Transfer × Service
finished = process_outbound unix bytes world worker sender sending_files "t1"

is_finished : finished ≡ (ok (transfer_of finished.0), finished.1)
unfolding process_outbound Store.get_transfer Dict.lookup offered Store.save_transfer
    Store.save_chunk Dict.insert
is_finished = refl

process_outbound-IsDelivered_example :
    (t : Transfer) × (get world.is_uuid env sending_files "t1" ≡ ok t)
    × (joined : Transfer) × IsConnected unix bytes world worker sender t.device_id joined
    × HasFiles unix bytes world worker t joined.files
    × IsDelivered unix bytes world worker joined (transfer_of finished.0)
process_outbound-IsDelivered_example =
    process_outbound-IsDelivered unix bytes world worker sender sending_files finished.1 "t1"
      (transfer_of finished.0) is_finished
