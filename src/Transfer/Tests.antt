-- ===== src/Transfer/Tests.antt =====
-- The properties of transfers on concrete tables (backend/internal/transfer).
use sync_space.Transfer.Store.{save_transfer, scan_transfer}
use sync_space.Base.{
  String, true, false, not, none, some, List, [], ◌∷◌, ◌≡◌, refl, arith, ◌==◌, ◌*◌, string_eq,
  str_eq_iff,
}
use sync_space.Base.Dict
use sync_space.Base.{Option, ◌-◌, ◌^◌, if◌then◌else◌}
use sync_space.Base.Int.{ℤ, pos, negsuc}
use sync_space.Transfer.Recovery.{recover, recover-is_stuck, is_stuck}
use sync_space.Transfer.Clock.{valid_protocol_time, valid_protocol_time-least}
use sync_space.Transfer.Models.{
  Transfer, outbound, queued, sending, completed, cancelled, completed_event, ok,
}
use sync_space.Transfer.Store
use sync_space.Transfer.Store.{Tables}
use sync_space.Transfer.Overtaken.{cancel_on-overtaken}
use sync_space.Transfer.Control.{
  Service, Env, Call, cancels, deletes_history, run, get, finish, cancel_on,
}
use sync_space.Transfer.Final.{IsKeyed, Stays, run-final}
use sync_space.Transfer.Mirrors.{IsMirrored, AreMirrors, run-IsMirrored}
use sync_space.Transfer.Throttle.{record_all, record_all-successes, successes, millisecond}
use sync_space.Transfer.Nonces.{use_authentication_nonce, use_all, use_all-refuses}

abbrev waiting : Transfer
waiting = record {
  id = "t1";
  direction = outbound;
  device_id = "a1";
  device_name = "laptop";
  device_hostname = "";
  device_platform = "";
  remote_address = "";
  filename = "notes.txt";
  path = "";
  source_paths = "/home/me/notes.txt" ∷ [];
  files = [];
  size = pos 12;
  checksum = "";
  status = queued;
  progress = pos 0;
  speed = pos 0;
  eta_seconds = pos 0;
  started_at = none;
  finished_at = none;
  created_at = 7;
  updated_at = 8;
  error = "";
  attempts = pos 0;
  priority = pos 1;
  approved = false;
  approval_required = false;
  conflict_policy = "rename";
  chunk_size = pos 4;
  compression = false;
  protocol_version = pos 1;
  session_token = "";
  session_token_hash = "";
}

abbrev done : Transfer
done = record waiting { id = "t2"; status = completed; finished_at = some 9 }

abbrev tables : Tables
tables = record {
  transfers = ("t1", waiting) ∷ ("t2", done) ∷ [];
  files = [];
  chunks = [];
  queued_transfers = ("t1", (pos 1, 8)) ∷ [];
  transfer_history = ("t2", (completed, 9)) ∷ [];
  failed_transfers = [];
  paused_transfers = [];
}

abbrev service : Service
service = record { tables = tables; published = [] }

abbrev env : Env
env = record { now = 20_000_000; get_fails = false; save_fails = false }

abbrev calls : List (Env × Call)
calls = (env, cancels "t1") ∷ (env, cancels "t2") ∷ (env, deletes_history false) ∷ []

tables-IsKeyed : IsKeyed tables
unfolding Dict.lookup
tables-IsKeyed = record { keyed = (refl, (refl, tt)); distinct = (refl, (refl, tt)) }

tables-AreMirrors : (id : String) → AreMirrors tables id
unfolding Dict.lookup
tables-AreMirrors id = record {
  waiting = ground (arith, str_eq_iff "t1" id, str_eq_iff "t2" id, str_eq_iff "t1" "t2");
  past = ground (arith, str_eq_iff "t1" id, str_eq_iff "t2" id, str_eq_iff "t1" "t2");
  broken = ground arith;
  halted = ground arith;
}

run-final_example : Stays "t2" done (run (λ s. not (s == "")) (λ s. s) service calls).tables
unfolding Dict.lookup
run-final_example =
    run-final (λ s. not (s == "")) (λ s. s) service calls "t2" done tables-IsKeyed refl refl

run-IsMirrored_example : IsMirrored (run (λ s. not (s == "")) (λ s. s) service calls).tables
run-IsMirrored_example =
    run-IsMirrored (λ s. not (s == "")) (λ s. s) service calls
      (record { rows = tables-IsKeyed; mirrors = tables-AreMirrors })

record_all-successes_example : record_all (40 * millisecond) (successes 31) ≡ 0
record_all-successes_example = record_all-successes (40 * millisecond) (omega arith)

first_accepted : (use_authentication_nonce [] "n" 100).0 ≡ true
unfolding use_authentication_nonce Dict.lookup
first_accepted = refl

use_all-refuses_example :
    (use_authentication_nonce
      (use_all (use_authentication_nonce [] "n" 100).1 (("m", 150) ∷ []))
      "n"
      300).0
    ≡ false
use_all-refuses_example =
    use_all-refuses [] "n" 100 (("m", 150) ∷ []) 300 first_accepted (omega arith, tt) (omega arith)

abbrev busy : Tables
busy = record tables {
  transfers = ("t1", record waiting { status = sending }) ∷ [];
  queued_transfers = [];
  transfer_history = [];
}

busy-IsKeyed : IsKeyed busy
unfolding Dict.lookup
busy-IsKeyed = record { keyed = (refl, tt); distinct = (refl, tt) }

abbrev requeued : Transfer
requeued = record waiting { status = queued; updated_at = 20; error = "recovered after restart" }

recovers_it : Dict.lookup "t1" (recover env busy).1.transfers ≡ some requeued
unfolding recover Dict.lookup scan_transfer save_transfer Dict.insert
recovers_it = refl

recover-is_stuck_example : is_stuck requeued ≡ false
recover-is_stuck_example =
    recover-is_stuck env busy "t1" requeued busy-IsKeyed refl refl recovers_it

abbrev parse : String → Option ℤ
parse s = if s == "old" then some (negsuc (2 ^ 63 - 1000 - 1)) else some (pos 900)

valid_protocol_time-least_example : valid_protocol_time parse "old" 1000 ≡ true
valid_protocol_time-least_example =
    valid_protocol_time-least parse "old" 1000 (omega arith) (omega arith) refl

-- The transfer as it is read, and as its worker completes it.
abbrev seen : Transfer
seen = record waiting { created_at = 7_000_000; updated_at = 8_000_000 }

abbrev latest : Transfer
latest = record seen { status = sending; progress = pos 12 }

is_read : get (λ s. not (s == "")) env service "t1" ≡ ok seen
unfolding get Store.get_transfer Dict.lookup
is_read = refl

cancel_on-overtaken_example :
    let ended = (finish env service latest completed "" completed_event).1 in
    (between row : Transfer) × (Dict.lookup "t1" ended.tables.transfers ≡ some between)
    × (between.status ≡ completed)
    × (Dict.lookup "t1" (cancel_on env ended seen).1.tables.transfers ≡ some row)
    × (row.status ≡ cancelled)
cancel_on-overtaken_example =
    cancel_on-overtaken (λ s. not (s == "")) env env env service "t1" seen latest is_read refl refl
      refl refl
