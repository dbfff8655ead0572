-- ===== src/Transfer/Steps.antt =====
-- What a save and a deletion preserve, every handler preserves (backend/internal/transfer/service.go).
use sync_space.Base.{
  String, Bool, true, false, some, List, [], ◌∷◌, ◌≡◌, refl, arith, if◌then◌else◌, string_eq,
  Bool-cases, inl, inr,
}
use sync_space.Transfer.Models.{
  cancelled, Transfer, EventType, TransferError, Outcome, ok, err, invalid_state, unauthorized,
  queue_updated, paused_event, resumed_event,
}
use sync_space.Transfer.Store
use sync_space.Transfer.Store.{Tables}
use sync_space.Transfer.Control.{
  Service, Env, save, finish, finished, with_transfer, get, reject, pause, resume, cancel, retry,
  protocol_cancel, Call, rejects, pauses, resumes, cancels, retries, cancelled_by_peer,
  deletes_history, step, run, is_final,
}

-- A property of the tables that survives the save of a transfer that was read in no final state, and
-- the deletion of the history.
pub record IsPreserved (P : Tables → Type 0) : Type 0 where
  pub saving :
      (s : Tables) (id : String) (old t : Transfer) (s' : Tables)
      → Store.get_transfer false s id ≡ ok old
      → is_final old.status ≡ false
      → t.id ≡ old.id
      → Store.save_transfer false s t ≡ some s'
      → P s
      → P s'
  pub deleting : (s s' : Tables) → Store.delete_history false s ≡ some s' → P s → P s'

get-answers :
    (fails : Bool) (s : Tables) (id : String) {t : Transfer}
    → Store.get_transfer fails s id ≡ ok t
    → Store.get_transfer false s id ≡ ok t
unfolding Store.get_transfer
get-answers fails s id e = ground (arith, e)

module _ (P : Tables → Type 0) (keep : IsPreserved P) where
  save-keeps :
      (env : Env) (s : Service) (id : String) (old t : Transfer) (type : EventType)
      → Store.get_transfer false s.tables id ≡ ok old
      → is_final old.status ≡ false
      → t.id ≡ old.id
      → P s.tables
      → P (save env s t type).1.tables
  unfolding save Store.save_transfer
  save-keeps env s id old t type g f i h = elim (Bool-cases env.save_fails) [
    | inl lost ↦ ground (arith, lost, h)
    | inr saved ↦
        let next = keep.saving s.tables id old t _ g f i refl h in ground (arith, saved, next)
  ]

  with_transfer-keeps :
      (s : Service) (found : Outcome Transfer) (f : Transfer → Outcome Transfer × Service)
      → ((t : Transfer) → found ≡ ok t → P (f t).1.tables)
      → P s.tables
      → P (with_transfer s found f).1.tables
  with_transfer-keeps s (err e) f k h = h
  with_transfer-keeps s (ok t) f k h = k t refl

  -- A guard that refuses the final states.
  guarded :
      (refuses : Bool) (env : Env) (s : Service) (id : String) (old t : Transfer) (type : EventType)
      (e : TransferError)
      → (refuses ≡ false → is_final old.status ≡ false)
      → Store.get_transfer false s.tables id ≡ ok old
      → t.id ≡ old.id
      → P s.tables
      → P (if refuses then (err e, s) else save env s t type).1.tables
  guarded true env s id old t type e r g i h = h
  guarded false env s id old t type e r g i h = save-keeps env s id old t type g (r refl) i h

  get-reads :
      (is_uuid : String → Bool) (env : Env) (s : Service) (id : String) {t : Transfer}
      → get is_uuid env s id ≡ ok t
      → Store.get_transfer false s.tables id ≡ ok t
  unfolding get
  get-reads is_uuid env s id {t} e = get-answers env.get_fails s.tables id (ground (arith, e))

  reject-keeps :
      (is_uuid : String → Bool) (env : Env) (s : Service) (id : String)
      → P s.tables
      → P (reject is_uuid env s id).1.tables
  unfolding reject finish
  reject-keeps is_uuid env s id h =
      with_transfer-keeps s (get is_uuid env s id) _
        (λ t e.
          guarded _ env s id t (finished env.now cancelled "" t) queue_updated invalid_state
            (λ r. ground (arith, r)) (get-reads is_uuid env s id e) refl h)
        h

  pause-keeps : (env : Env) (s : Service) (id : String) → P s.tables → P (pause env s id).1.tables
  unfolding pause
  pause-keeps env s id h =
      with_transfer-keeps s (Store.get_transfer env.get_fails s.tables id) _
        (λ t e.
          guarded _ env s id t _ paused_event invalid_state (λ r. ground (arith, r))
            (get-answers env.get_fails s.tables id e) refl h)
        h

  resume-keeps : (env : Env) (s : Service) (id : String) → P s.tables → P (resume env s id).1.tables
  unfolding resume
  resume-keeps env s id h =
      with_transfer-keeps s (Store.get_transfer env.get_fails s.tables id) _
        (λ t e.
          guarded _ env s id t _ resumed_event invalid_state (λ r. ground (arith, r))
            (get-answers env.get_fails s.tables id e) refl h)
        h

  cancel-keeps :
      (is_uuid : String → Bool) (env : Env) (s : Service) (id : String)
      → P s.tables
      → P (cancel is_uuid env s id).1.tables
  unfolding cancel finish
  cancel-keeps is_uuid env s id h =
      with_transfer-keeps s (get is_uuid env s id) _
        (λ t e.
          guarded _ env s id t (finished env.now cancelled "" t) queue_updated invalid_state
            (λ r. r) (get-reads is_uuid env s id e) refl h)
        h

  retry-keeps : (env : Env) (s : Service) (id : String) → P s.tables → P (retry env s id).1.tables
  unfolding retry
  retry-keeps env s id h =
      with_transfer-keeps s (Store.get_transfer env.get_fails s.tables id) _
        (λ t e.
          guarded _ env s id t _ queue_updated invalid_state (λ r. ground (arith, r))
            (get-answers env.get_fails s.tables id e) refl h)
        h

  or_refused :
      (refuses : Bool) (s : Service) (e : TransferError) (end : Outcome Transfer × Service)
      → P s.tables
      → P end.1.tables
      → P (if refuses then (err e, s) else end).1.tables
  or_refused true s e end h k = h
  or_refused false s e end h k = k

  protocol_cancel-keeps :
      (is_uuid : String → Bool) (hash : String → String) (env : Env) (s : Service)
      (id token : String)
      → P s.tables
      → P (protocol_cancel is_uuid hash env s id token).1.tables
  unfolding protocol_cancel finish
  protocol_cancel-keeps is_uuid hash env s id token h =
      with_transfer-keeps s (get is_uuid env s id) _
        (λ t e. or_refused _ s unauthorized _ h (
          guarded _ env s id t (finished env.now cancelled "cancelled by sender" t) queue_updated
            invalid_state (λ r. r) (get-reads is_uuid env s id e) refl h))
        h

  delete-keeps :
      (is_uuid : String → Bool) (hash : String → String) (s : Service) (env : Env) (fails : Bool)
      → P s.tables
      → P (step is_uuid hash s (env, deletes_history fails)).tables
  unfolding step Store.delete_history
  delete-keeps is_uuid hash s env true h = h
  delete-keeps is_uuid hash s env false h = keep.deleting s.tables _ refl h

  step-keeps :
      (is_uuid : String → Bool) (hash : String → String) (s : Service) (c : Env × Call)
      → P s.tables
      → P (step is_uuid hash s c).tables
  unfolding step
  step-keeps is_uuid hash s (env, rejects id) h = reject-keeps is_uuid env s id h
  step-keeps is_uuid hash s (env, pauses id) h = pause-keeps env s id h
  step-keeps is_uuid hash s (env, resumes id) h = resume-keeps env s id h
  step-keeps is_uuid hash s (env, cancels id) h = cancel-keeps is_uuid env s id h
  step-keeps is_uuid hash s (env, retries id) h = retry-keeps env s id h
  step-keeps is_uuid hash s (env, cancelled_by_peer id token) h =
      protocol_cancel-keeps is_uuid hash env s id token h
  step-keeps is_uuid hash s (env, deletes_history fails) h = delete-keeps is_uuid hash s env fails h

  pub run-keeps :
      (is_uuid : String → Bool) (hash : String → String) (s : Service) (cs : List (Env × Call))
      → P s.tables
      → P (run is_uuid hash s cs).tables
  unfolding run
  run-keeps is_uuid hash s [] h = h
  run-keeps is_uuid hash s (c ∷ cs) h =
      run-keeps is_uuid hash (step is_uuid hash s c) cs (step-keeps is_uuid hash s c h)
