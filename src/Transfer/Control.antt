-- ===== src/Transfer/Control.antt =====
-- The handlers of backend/internal/transfer/service.go that move a transfer from state to state. A
-- step is a whole handler; `Reject`, `Cancel` and `ProtocolCancel` read and save under no common lock:
-- what they do after the read is a function of the transfer that they read and of the service by then,
-- and a step is a call of theirs that nothing comes between. The cancellation of a running worker, the
-- request that `Cancel` sends to the peer and the wake-up of the dispatcher change nothing here.
use sync_space.Base.{
  ℕ, String, Bool, true, false, not, ◌&&◌, ◌||◌, none, some, List, [], ◌∷◌, ◌++◌, if◌then◌else◌,
  ◌==◌, string_eq,
}
use sync_space.Base.Int.{pos}
use sync_space.Transfer.Models.{
  Status, queued, preparing, connecting, negotiating, sending, receiving, paused, resuming,
  completed, cancelled, failed, is_inbound, Transfer, Event, EventType, queue_updated, paused_event,
  resumed_event, Outcome, ok, err, storage, invalid_request, invalid_state, unauthorized,
}
use sync_space.Transfer.Store
use sync_space.Transfer.Store.{Tables}

pub record Service : Type 0 where
  pub tables : Tables
  pub published : List Event

-- The clock, and which database calls fail.
pub record Env : Type 0 where
  pub now : ℕ
  pub get_fails : Bool
  pub save_fails : Bool

abbrev pub is_queued : Status → Bool
is_queued queued = true
is_queued _ = false

abbrev pub is_paused : Status → Bool
is_paused paused = true
is_paused _ = false

abbrev pub is_failed : Status → Bool
is_failed failed = true
is_failed _ = false

abbrev pub is_final : Status → Bool
is_final completed = true
is_final cancelled = true
is_final _ = false

-- The states that `Pause` accepts.
abbrev pub is_running : Status → Bool
is_running sending = true
is_running receiving = true
is_running connecting = true
is_running negotiating = true
is_running preparing = true
is_running resuming = true
is_running _ = false

-- `SaveTransfer`, then `logAndPublish`
unfoldable pub save : Env → Service → Transfer → EventType → Outcome Transfer × Service
save env s t type = elim (Store.save_transfer env.save_fails s.tables t) [
  | none ↦ (err storage, s)
  | some tables ↦ (
    ok t,
    record s {
      tables = tables;
      published = s.published ++ record { type = type; transfer = t; timestamp = env.now } ∷ [];
    },
  )
]

abbrev pub finished : ℕ → Status → String → Transfer → Transfer
finished now status message t = record t {
  status = status;
  error = message;
  speed = pos 0;
  eta_seconds = pos 0;
  updated_at = now;
  finished_at = some now;
}

unfoldable pub finish :
    Env → Service → Transfer → Status → String → EventType → Outcome Transfer × Service
unfolding save
finish env s t status message type = save env s (finished env.now status message t) type

-- A handler that goes on with the transfer that the database holds.
abbrev pub with_transfer :
    Service
    → Outcome Transfer
    → (Transfer → Outcome Transfer × Service)
    → Outcome Transfer × Service
with_transfer s (err e) f = (err e, s)
with_transfer s (ok t) f = f t

unfoldable pub get : (String → Bool) → Env → Service → String → Outcome Transfer
get is_uuid env s id =
    if is_uuid id then Store.get_transfer env.get_fails s.tables id else err invalid_request

-- `Reject` after its read.
unfoldable pub reject_on : Env → Service → Transfer → Outcome Transfer × Service
unfolding finish
reject_on env s t =
    if not (is_inbound t.direction) || t.approved || not (is_queued t.status)
    then (err invalid_state, s)
    else finish env s t cancelled "" queue_updated

unfoldable pub reject : (String → Bool) → Env → Service → String → Outcome Transfer × Service
unfolding get reject_on
reject is_uuid env s id = with_transfer s (get is_uuid env s id) (reject_on env s)

unfoldable pub pause : Env → Service → String → Outcome Transfer × Service
unfolding save
pause env s id = with_transfer s (Store.get_transfer env.get_fails s.tables id) (λ t.
    if not (is_running t.status)
    then (err invalid_state, s)
    else save env s
        (record t { status = paused; speed = pos 0; eta_seconds = pos 0; updated_at = env.now })
        paused_event)

unfoldable pub resume : Env → Service → String → Outcome Transfer × Service
unfolding save
resume env s id = with_transfer s (Store.get_transfer env.get_fails s.tables id) (λ t.
    if not (is_paused t.status)
    then (err invalid_state, s)
    else save env s
        (record t {
          status = if is_inbound t.direction then receiving else resuming;
          error = "";
          updated_at = env.now;
        })
        resumed_event)

-- `Cancel` after its read: the transfer that it read, and the service as it is by then.
unfoldable pub cancel_on : Env → Service → Transfer → Outcome Transfer × Service
unfolding finish
cancel_on env s t =
    if is_final t.status then (err invalid_state, s) else finish env s t cancelled "" queue_updated

unfoldable pub cancel : (String → Bool) → Env → Service → String → Outcome Transfer × Service
unfolding get cancel_on
cancel is_uuid env s id = with_transfer s (get is_uuid env s id) (cancel_on env s)

unfoldable pub retry : Env → Service → String → Outcome Transfer × Service
unfolding save
retry env s id = with_transfer s (Store.get_transfer env.get_fails s.tables id) (λ t.
    if not (is_failed t.status)
    then (err invalid_state, s)
    else save env s
        (record t {
          error = "";
          finished_at = none;
          speed = pos 0;
          eta_seconds = pos 0;
          status = if is_inbound t.direction && t.approved then receiving else queued;
          updated_at = env.now;
        })
        queue_updated)

-- `ProtocolCancel` after its read; `hash` is `hashToken`.
unfoldable pub protocol_cancel_on :
    (String → String) → Env → Service → String → Transfer → Outcome Transfer × Service
unfolding finish
protocol_cancel_on hash env s token t =
    if not (t.session_token_hash == hash token)
    then (err unauthorized, s)
    else if is_final t.status
    then (err invalid_state, s)
    else finish env s t cancelled "cancelled by sender" queue_updated

unfoldable pub protocol_cancel :
    (String → Bool)
    → (String → String)
    → Env
    → Service
    → String
    → String
    → Outcome Transfer × Service
unfolding get protocol_cancel_on
protocol_cancel is_uuid hash env s id token =
    with_transfer s (get is_uuid env s id) (protocol_cancel_on hash env s token)

pub data Call : Type 0 where
  rejects pauses resumes cancels retries : String → Call
  cancelled_by_peer : String → String → Call
  deletes_history : Bool → Call

-- What a call's environment and the two functions of other packages are.
unfoldable pub step : (String → Bool) → (String → String) → Service → Env × Call → Service
step is_uuid hash s (env, rejects id) = (reject is_uuid env s id).1
step is_uuid hash s (env, pauses id) = (pause env s id).1
step is_uuid hash s (env, resumes id) = (resume env s id).1
step is_uuid hash s (env, cancels id) = (cancel is_uuid env s id).1
step is_uuid hash s (env, retries id) = (retry env s id).1
step is_uuid hash s (env, cancelled_by_peer id token) =
    (protocol_cancel is_uuid hash env s id token).1
step is_uuid hash s (env, deletes_history fails) = elim (Store.delete_history fails s.tables) [
  | none ↦ s
  | some tables ↦ record s { tables = tables }
]

unfoldable pub run : (String → Bool) → (String → String) → Service → List (Env × Call) → Service
run is_uuid hash s [] = s
run is_uuid hash s (c ∷ cs) = run is_uuid hash (step is_uuid hash s c) cs
