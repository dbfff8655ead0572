-- ===== src/Transfer/Sending/Completed.antt =====
-- When an outgoing transfer counts as completed (`processOutbound` of
-- backend/internal/transfer/sender.go).
use sync_space.Base.{
  ℕ, String, Bool, true, false, ◌&&◌, none, some, List, [], ◌∷◌, ◌≡◌, ◌⊎◌, arith, All, Bool-cases,
  Option-cases, inl, inr, is_empty, sym,
}
use mathlib.Core.Path.{subst}
use sync_space.Base.Int.{ℤ}
use sync_space.Models.{Device}
use sync_space.Transfer.Models.{
  sending, preparing, completed, File, Transfer, ResumeMap, Outcome, ok, err, Outcome-cases,
  resumed_event, completed_event, queue_updated,
}
use sync_space.Transfer.Store
use sync_space.Transfer.Paths.{Platform}
use sync_space.Transfer.Externals.{Externals, peer}
use sync_space.Transfer.Control.{Service, Env, save, finish, get}
use sync_space.Transfer.Requests.{Sender, peer_address}
use sync_space.Transfer.Receiving.{ChunkRequest, refresh_progress}
use sync_space.Transfer.Parts.{Contents}
use sync_space.Transfer.Sending.{chunk_request, send_chunk, retry_limit}
use sync_space.Transfer.Sending.Attempts.{Succeeds, send_attempts-Succeeds}
use sync_space.Transfer.Sending.Tasks.{tasks_of, AreSettled, tasks_of-AreSettled}
use sync_space.Transfer.Sending.Outbound.{
  WorkerEnv, Manifest, await_approval, is_open, is_ended, sent_chunk, send_tasks, prepare, connect,
  deliver, process_outbound, in_state,
}

await_approval-approved :
    (polls : List (Outcome ResumeMap)) (r : ResumeMap)
    → await_approval polls ≡ ok r
    → (r.approved ≡ true) × (is_open r.status ≡ true)
unfolding await_approval
await_approval-approved [] r h = ground (arith, h)
await_approval-approved (err e ∷ polls) r h = await_approval-approved polls r h
await_approval-approved (ok q ∷ polls) r h = elim (Bool-cases (q.approved && is_open q.status)) [
  | inl good ↦
      let same : q ≡ r = ground (arith, good, h) in
      let fits : (q.approved ≡ true) × (is_open q.status ≡ true) = ground (arith, good) in
      rw same at fits
  | inr bad ↦ elim (Bool-cases (is_ended q.status)) [
    | inl gone ↦ ground (arith, bad, gone, h)
    | inr still ↦ await_approval-approved polls r (ground (arith, bad, still, h))
  ]
]

module _ (p : Platform) (c : Contents) (x : Externals) (w : WorkerEnv) where
  -- A chunk whose source was read, and whose request was answered with success by one of the attempts.
  abbrev pub IsSent : Transfer → File × ℤ → Type 0
  IsSent t (f, index) =
      (source : List ℕ) × (w.source f.source_path ≡ some source)
      × (request : ChunkRequest) × (chunk_request p c w.encoding t f source index ≡ ok request)
      × Succeeds (w.answers f index) retry_limit 1

  send_chunk-IsSent :
      (t : Transfer) (f : File) (index : ℤ) (delay : ℕ) (b : Bool)
      → (send_chunk p c w.encoding t f (w.source f.source_path) index (w.answers f index) delay).0
        ≡ ok b
      → IsSent t (f, index)
  unfolding send_chunk
  send_chunk-IsSent t f index delay b h = elim (Option-cases (w.source f.source_path)) [
    | inl lost ↦ ground (arith, lost, h)
    | inr (source, found) ↦ elim (Outcome-cases (chunk_request p c w.encoding t f source index)) [
      | inl (e, bad) ↦ ground (arith, found, bad, h)
      | inr (request, good) ↦ (
        source,
        found,
        request,
        good,
        send_attempts-Succeeds retry_limit (w.answers f index) 1 delay 0 b
            (ground (arith, found, good, h)),
      )
    ]
  ]

  send_tasks-All :
      (delay : ℕ) (s : Service) (t : Transfer) (tasks : List (File × ℤ))
      → (send_tasks p c x w delay s t tasks).0 ≡ none
      → All (IsSent t) tasks
  unfolding send_tasks
  send_tasks-All delay s t [] h = tt
  send_tasks-All delay s t ((f, index) ∷ tasks) h =
      let sent =
        send_chunk p c w.encoding t f (w.source f.source_path) index (w.answers f index) delay in
      elim (Outcome-cases sent.0) [
        | inl (e, bad) ↦ ground (arith, bad, h)
        | inr (b, good) ↦
            elim (Option-cases
              (Store.save_chunk w.env.save_fails s.tables (sent_chunk p c x w t f index))) [
                | inl lost ↦ ground (arith, good, lost, h)
                | inr (tables, saved) ↦ (
                  send_chunk-IsSent t f index delay b good,
                  send_tasks-All sent.1
                      (refresh_progress p c w.env w.env.get_fails false
                        (record s { tables = tables }) t.id).1
                      t tasks (ground (arith, good, saved, h)),
                )
              ]
      ]

  -- The transfer as its chunks are sent.
  abbrev pub sending_of : Transfer → Transfer
  sending_of t = record (in_state t sending w.env.now) { approved = true }

  -- The receiver has approved, has all chunks and has confirmed the whole.
  pub record IsDelivered (t done : Transfer) : Type 0 where
    pub offered : w.offer_answer ≡ none
    pub answer : ResumeMap
    pub polled : await_approval w.polls ≡ ok answer
    pub approved : answer.approved ≡ true
    pub all_sent : All (AreSettled (IsSent (sending_of t)) answer.chunks) t.files
    pub confirmed : w.complete_answer ≡ none
    pub status : done.status ≡ completed
    pub progress : done.progress ≡ done.size

  finish-completed :
      (env : Env) (s : Service) (t done : Transfer) (s' : Service)
      → finish env s (record t { progress = t.size }) completed "" completed_event ≡ (ok done, s')
      → (done.status ≡ completed) × (done.progress ≡ done.size)
  unfolding finish save
  finish-completed env s t done s' h = ground (arith, h)

  deliver-IsDelivered :
      (s s' : Service) (t done : Transfer)
      → deliver p c x w s t ≡ (ok done, s')
      → IsDelivered t done
  unfolding deliver
  deliver-IsDelivered s s' t done h = elim (Option-cases w.offer_answer) [
    | inr (e, bad) ↦ ground (arith, bad, h)
    | inl offered ↦ elim (Outcome-cases (await_approval w.polls)) [
      | inl (e, bad) ↦ ground (arith, offered, bad, h)
      | inr (r, polled) ↦
          let made : Transfer = record (in_state t sending w.env.now) { approved = true } in
          let step = save w.env s made resumed_event in
          elim (Outcome-cases step.0) [
            | inl (e, lost) ↦ ground (arith, offered, polled, lost, h)
            | inr (v, saved) ↦
                let run = send_tasks p c x w w.delay step.1 made (tasks_of t.files r.chunks) in
                elim (Option-cases run.0) [
                  | inr (e, bad) ↦ ground (arith, offered, polled, saved, bad, h)
                  | inl all ↦ elim (Option-cases w.complete_answer) [
                    | inr (e, bad) ↦ ground (arith, offered, polled, saved, all, bad, h)
                    | inl confirmed ↦ elim (Outcome-cases (get x.is_uuid w.env run.1 t.id)) [
                      | inl (e, bad) ↦
                          ground (arith, offered, polled, saved, all, confirmed, bad, h)
                      | inr (latest, found) ↦
                          let (status, size) =
                            finish-completed w.env run.1 latest done s'
                              (ground (arith, offered, polled, saved, all, confirmed, found, h)) in
                          record {
                            offered = offered;
                            answer = r;
                            polled = polled;
                            approved = (await_approval-approved w.polls r polled).0;
                            all_sent = tasks_of-AreSettled (IsSent made) r.chunks t.files (
                                send_tasks-All w.delay step.1 made (tasks_of t.files r.chunks) all);
                            confirmed = confirmed;
                            status = status;
                            progress = size;
                          }
                    ]
                  ]
                ]
          ]
    ]
  ]

  -- The files are those that the transfer had, or what the manifest finds where it had none.
  abbrev pub HasFiles : Transfer → List File → Type 0
  HasFiles t files =
      ((is_empty t.files ≡ false) × (files ≡ t.files))
      ⊎ ((is_empty t.files ≡ true) × ((m : Manifest) × (w.manifest ≡ ok m) × (files ≡ m.files)))

  prepare-HasFiles :
      (s : Service) (t ready : Transfer)
      → (prepare p c x w s t).0 ≡ ok ready
      → HasFiles t ready.files × (ready.device_id ≡ t.device_id)
  unfolding prepare
  prepare-HasFiles s t ready h = elim (Bool-cases (is_empty t.files)) [
    | inr full ↦ (inl (full, ground (arith, full, h)), ground (arith, full, h))
    | inl nothing ↦
        let (saved, begun) = save w.env s (in_state t preparing w.env.now) queue_updated in
        elim (Outcome-cases saved) [
          | inl (e, lost) ↦ ground (arith, nothing, lost, h)
          | inr (v, kept) ↦ elim (Outcome-cases w.manifest) [
            | inl (e, bad) ↦ ground (arith, nothing, kept, bad, h)
            | inr (m, found) ↦ (
              inr (nothing, (m, found, ground (arith, nothing, kept, found, h))),
              ground (arith, nothing, kept, found, h),
            )
          ]
        ]
  ]

  -- The destination is a peer that is online, and the transfer goes to its address.
  abbrev pub IsConnected : Sender → String → Transfer → Type 0
  IsConnected sender device_id joined =
      (d : Device) × (peer w.peers device_id ≡ some d)
      × (d.is_online ≡ true)
      × (joined.remote_address ≡ peer_address sender d)

  connect-IsConnected :
      (sender : Sender) (s : Service) (t joined : Transfer)
      → (connect p c x w sender s t).0 ≡ ok joined
      → IsConnected sender t.device_id joined × (joined.files ≡ t.files)
  unfolding connect
  connect-IsConnected sender s t joined h = elim (Option-cases (peer w.peers t.device_id)) [
    | inl gone ↦ ground (arith, gone, h)
    | inr (d, known) ↦ elim (Bool-cases d.is_online) [
      | inr away ↦ ground (arith, known, away, h)
      | inl there ↦
          ((d, known, there, ground (arith, known, there, h)), ground (arith, known, there, h))
    ]
  ]

  -- An outgoing transfer that ends completed went to the address of its destination, a peer that was
  -- online, with the files that it had or those of its manifest; the receiver took the offer and approved
  -- it; of every file that is no directory, every chunk from the first to the last either stood in the
  -- receiver's answer, or was read from its source and its request answered with success by one of the
  -- attempts; the receiver confirmed the whole; and the progress is the size.
  pub process_outbound-IsDelivered :
      (sender : Sender) (s s' : Service) (id : String) (done : Transfer)
      → process_outbound p c x w sender s id ≡ (ok done, s')
      → (t : Transfer) × (get x.is_uuid w.env s id ≡ ok t)
        × (joined : Transfer) × IsConnected sender t.device_id joined
        × HasFiles t joined.files
        × IsDelivered joined done
  unfolding process_outbound
  process_outbound-IsDelivered sender s s' id done h =
      elim (Outcome-cases (get x.is_uuid w.env s id)) [
        | inl (e, bad) ↦ ground (arith, bad, h)
        | inr (t, found) ↦ elim (Outcome-cases (prepare p c x w s t).0) [
          | inl (e, bad) ↦ ground (arith, found, bad, h)
          | inr (ready, prepared) ↦
              let step = connect p c x w sender (prepare p c x w s t).1 ready in
              let (files, device) = prepare-HasFiles s t ready prepared in
              elim (Outcome-cases step.0) [
                | inl (e, bad) ↦ ground (arith, found, prepared, bad, h)
                | inr (joined, connected) ↦
                    let (reached, same) =
                      connect-IsConnected sender (prepare p c x w s t).1 ready joined connected in
                    (
                      t,
                      found,
                      joined,
                      subst (λ device_id. IsConnected sender device_id joined) device reached,
                      subst (HasFiles t) (sym same) files,
                      deliver-IsDelivered step.1 s' joined done
                          (ground (arith, found, prepared, connected, h)),
                    )
              ]
        ]
      ]
