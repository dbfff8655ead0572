-- ===== src/Transfer/Overtaken.antt =====
-- A cancellation that the end of the transfer overtakes between its read and its save (`Cancel` and
-- `finish` of backend/internal/transfer/service.go).
use sync_space.Base.{String, Bool, false, some, ◌≡◌, refl, arith, string_eq, sym}
use mathlib.Core.Path.{subst}
use sync_space.Base.Dict
use sync_space.Transfer.Models.{
  Status, completed, cancelled, Transfer, EventType, completed_event, queue_updated, Outcome, ok,
}
use sync_space.Transfer.Store
use sync_space.Transfer.Control.{Service, Env, save, finish, finished, get, cancel_on, is_final}
use sync_space.Transfer.Final.{save_transfer-rows}

-- The row that an end leaves where the database takes it.
finish-row :
    (env : Env) (s : Service) (t : Transfer) (status : Status) (message : String) (type : EventType)
    → env.save_fails ≡ false
    → Dict.lookup t.id (finish env s t status message type).1.tables.transfers
      ≡ some
          (Store.to_row (Dict.lookup t.id s.tables.transfers) (finished env.now status message t))
unfolding finish save Store.save_transfer
finish-row env s t status message type h =
    let made = finished env.now status message t in
    let row = Store.to_row (Dict.lookup t.id s.tables.transfers) made in
    let rows = save_transfer-rows s.tables made _ refl in
    ground (arith, h, rows, Dict.lookup-insert_self t.id row s.tables.transfers)

cancel_on-finishes :
    (env : Env) (s : Service) (t : Transfer)
    → is_final t.status ≡ false
    → cancel_on env s t ≡ finish env s t cancelled "" queue_updated
unfolding cancel_on
cancel_on-finishes env s t f = ground (arith, f)

-- Where a transfer is completed after `Cancel` has read it in no final state and before `Cancel` saves,
-- and the database takes both saves, its row is completed in between and cancelled at the end.
pub cancel_on-overtaken :
    (is_uuid : String → Bool) (env env' env'' : Env) (s : Service) (id : String)
    (t latest : Transfer)
    → get is_uuid env s id ≡ ok t
    → is_final t.status ≡ false
    → latest.id ≡ t.id
    → env'.save_fails ≡ false
    → env''.save_fails ≡ false
    → let ended = (finish env' s latest completed "" completed_event).1 in
      (between row : Transfer) × (Dict.lookup t.id ended.tables.transfers ≡ some between)
      × (between.status ≡ completed)
      × (Dict.lookup t.id (cancel_on env'' ended t).1.tables.transfers ≡ some row)
      × (row.status ≡ cancelled)
unfolding Store.to_row
cancel_on-overtaken is_uuid env env' env'' s id t latest read f same h h' =
    let ended = (finish env' s latest completed "" completed_event).1 in
    let old = Dict.lookup latest.id s.tables.transfers in
    let between = Store.to_row old (finished env'.now completed "" latest) in
    let row =
      Store.to_row (Dict.lookup t.id ended.tables.transfers) (finished env''.now cancelled "" t) in
    let first = finish-row env' s latest completed "" completed_event h in
    let second = finish-row env'' ended t cancelled "" queue_updated h' in
    (
      between,
      row,
      subst (λ k. Dict.lookup k ended.tables.transfers ≡ some between) same first,
      refl,
      subst
          (λ (end : Outcome Transfer × Service). Dict.lookup t.id end.1.tables.transfers ≡ some row)
          (sym (cancel_on-finishes env'' ended t f)) second,
      refl,
    )
