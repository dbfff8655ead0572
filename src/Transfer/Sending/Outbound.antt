-- ===== src/Transfer/Sending/Outbound.antt =====
-- The worker of one outgoing transfer (`processOutbound` of backend/internal/transfer/sender.go), with
-- what the manifest, the disk and the peer answer as arguments. The chunks are sent
-- by one worker here, in the order of the tasks; the code may run several.
use sync_space.Base.{
  ℕ, String, Bool, true, false, not, ◌&&◌, Option, none, some, List, [], ◌∷◌, if◌then◌else◌, ◌==◌,
  string_eq, is_empty,
}
use sync_space.Base.Int.{ℤ, pos, int_eq, add64, wrap64, ◌+ℤ◌}
use sync_space.Models.{Device}
use sync_space.Transfer.Models.{
  Status, preparing, connecting, negotiating, receiving, resuming, sending, cancelled, failed,
  completed, File, Chunk, chunk_complete, Transfer, ResumeMap, queue_updated, resumed_event,
  completed_event, TransferError, Outcome, ok, err, storage, other,
}
use sync_space.Transfer.Store
use sync_space.Transfer.Externals.{Externals, peer}
use sync_space.Transfer.Control.{Service, Env, save, finish, get}
use sync_space.Transfer.Requests.{Sender, peer_address}
use sync_space.Transfer.Chunks.{chunk_offset, expected_size}
use sync_space.Transfer.Paths.{Platform}
use sync_space.Transfer.Receiving.{refresh_progress}
use sync_space.Transfer.Parts.{Contents}
use sync_space.Transfer.Sending.{Attempt, Encoding, send_chunk}
use sync_space.Transfer.Sending.Tasks.{tasks_of}

-- What `buildManifest` finds.
pub record Manifest : Type 0 where
  pub files : List File
  pub size : ℤ
  pub checksum : String

-- The answers that a worker gets, in the order in which it asks. `polls` are the answers of the receiver
-- until it has approved; `source` opens a file, `answers` are what
-- the attempts at a chunk come to, and `delay` is the throttle's when the sending starts.
pub record WorkerEnv : Type 0 where
  pub env : Env
  pub manifest : Outcome Manifest
  pub peers : List Device
  pub new_token : Option String
  pub offer_answer : Option TransferError
  pub polls : List (Outcome ResumeMap)
  pub encoding : Encoding
  pub source : String → Option (List ℕ)
  pub answers : File → ℤ → ℕ → Attempt × Bool
  pub delay : ℕ
  pub complete_answer : Option TransferError

abbrev pub is_open : Status → Bool
is_open receiving = true
is_open resuming = true
is_open _ = false

abbrev pub is_ended : Status → Bool
is_ended cancelled = true
is_ended failed = true
is_ended _ = false

-- The loop that waits for the approval; none if it goes on until the context is done.
unfoldable pub await_approval : List (Outcome ResumeMap) → Outcome ResumeMap
await_approval [] = err (other "cancelled")
await_approval (err e ∷ polls) = await_approval polls
await_approval (ok r ∷ polls) =
    let rest = await_approval polls in
    if r.approved && is_open r.status
    then ok r
    else if is_ended r.status
    then err (other "receiver ended transfer")
    else rest

-- `SaveTransfer` without an event.
unfoldable pub save_only : Env → Service → Transfer → Option Service
save_only env s t = elim (Store.save_transfer env.save_fails s.tables t) [
  | none ↦ none
  | some tables ↦ some (record s { tables = tables })
]

abbrev pub in_state : Transfer → Status → ℕ → Transfer
in_state t status now = record t { status = status; updated_at = now }

module _ (p : Platform) (c : Contents) (x : Externals) (w : WorkerEnv) where
  -- The files of a transfer that has none yet.
  unfoldable pub prepare : Service → Transfer → Outcome Transfer × Service
  unfolding save save_only ◌+ℤ◌ wrap64
  prepare s t =
      if not (is_empty t.files)
      then (ok t, s)
      else (let (saved, begun) = save w.env s (in_state t preparing w.env.now) queue_updated in
          elim saved [
            | err e ↦ (err e, begun)
            | ok _ ↦ elim w.manifest [
              | err e ↦ (err e, begun)
              | ok m ↦
                  let made : Transfer = record (in_state t preparing w.env.now) {
                    files = m.files;
                    size = m.size;
                    checksum = m.checksum;
                    attempts = add64 t.attempts (pos 1);
                  } in
                  elim (save_only w.env begun made) [
                    | none ↦ (err storage, begun)
                    | some next ↦ (ok made, next)
                  ]
            ]
          ])

  abbrev token_of : Transfer → Option String
  token_of t = if t.session_token == "" then w.new_token else some t.session_token

  abbrev start_of : Option ℕ → Option ℕ
  start_of none = some w.env.now
  start_of (some at) = some at

  -- Up to the state `negotiating`.
  unfoldable pub connect : Sender → Service → Transfer → Outcome Transfer × Service
  unfolding peer peer_address save save_only
  connect sender s t = elim (peer w.peers t.device_id) [
    | none ↦ (err (other "destination device is offline"), s)
    | some d ↦
        if not d.is_online
        then (err (other "destination device is offline"), s)
        else elim (token_of t) [
          | none ↦ (err (other "token"), s)
          | some token ↦
              let made : Transfer = record (in_state t connecting w.env.now) {
                remote_address = peer_address sender d;
                session_token = token;
                started_at = start_of t.started_at;
              } in
              let (saved, begun) = save w.env s made queue_updated in
              elim saved [
                | err e ↦ (err e, begun)
                | ok _ ↦
                    let next = in_state made negotiating w.env.now in
                    elim (save_only w.env begun next) [
                      | none ↦ (err storage, begun)
                      | some after ↦ (ok next, after)
                    ]
              ]
        ]
  ]

  abbrev pub sent_chunk : Transfer → File → ℤ → Chunk
  sent_chunk t f index = record {
    transfer_id = t.id;
    file_id = f.id;
    index = index;
    offset = chunk_offset f index;
    size = expected_size f index;
    checksum = "";
    status = chunk_complete;
    attempts = pos 1;
    updated_at = w.env.now;
  }

  -- The worker's loop over its tasks: the first error, if any.
  unfoldable pub send_tasks :
      ℕ → Service → Transfer → List (File × ℤ) → Option TransferError × Service
  unfolding refresh_progress chunk_offset expected_size send_chunk
  send_tasks delay s t [] = (none, s)
  send_tasks delay s t ((f, index) ∷ tasks) =
      let (sent, later, requests) =
        send_chunk p c w.encoding t f (w.source f.source_path) index (w.answers f index) delay in
      elim sent [
        | err e ↦ (some e, s)
        | ok _ ↦ elim (Store.save_chunk w.env.save_fails s.tables (sent_chunk t f index)) [
          | none ↦ (some storage, s)
          | some tables ↦
              send_tasks later
                (refresh_progress p c w.env w.env.get_fails false (record s { tables = tables })
                  t.id).1
                t tasks
        ]
      ]

  -- From the offer on.
  unfoldable pub deliver : Service → Transfer → Outcome Transfer × Service
  unfolding await_approval tasks_of send_tasks save get finish
  deliver s t = elim w.offer_answer [
    | some e ↦ (err e, s)
    | none ↦ elim (await_approval w.polls) [
      | err e ↦ (err e, s)
      | ok r ↦
          let made : Transfer = record (in_state t sending w.env.now) { approved = true } in
          let (saved, begun) = save w.env s made resumed_event in
          elim saved [
            | err e ↦ (err e, begun)
            | ok _ ↦
                let (failure, sent) =
                  send_tasks w.delay begun made (tasks_of made.files r.chunks) in
                elim failure [
                  | some e ↦ (err e, sent)
                  | none ↦ elim w.complete_answer [
                    | some e ↦ (err e, sent)
                    | none ↦ elim (get x.is_uuid w.env sent t.id) [
                      | err e ↦ (err e, sent)
                      | ok latest ↦
                          finish w.env sent (record latest { progress = latest.size }) completed ""
                            completed_event
                    ]
                  ]
                ]
          ]
    ]
  ]

  unfoldable pub process_outbound : Sender → Service → String → Outcome Transfer × Service
  unfolding get prepare connect deliver
  process_outbound sender s id = elim (get x.is_uuid w.env s id) [
    | err e ↦ (err e, s)
    | ok t ↦
        let (prepared, ready) = prepare s t in
        elim prepared [
          | err e ↦ (err e, ready)
          | ok t2 ↦
              let (connected, joined) = connect sender ready t2 in
              elim connected [ err e ↦ (err e, joined) | ok t3 ↦ deliver joined t3 ]
        ]
  ]
