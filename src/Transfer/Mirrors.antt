-- ===== src/Transfer/Mirrors.antt =====
-- The four mirror tables say of each transfer what its status says
-- (backend/internal/transfer/sqlite_store.go).
use sync_space.Base.{
  String, Bool, true, false, Option, none, some, List, ◌≡◌, refl, arith, string_eq, Bool-cases,
  ◌==◌, inl, inr,
}
use mathlib.Core.Path.{subst}
use sync_space.Base.Dict
use sync_space.Base.Dict.{Dict}
use sync_space.Transfer.Models.{
  Status, queued, preparing, connecting, negotiating, resuming, Transfer,
}
use sync_space.Transfer.Store
use sync_space.Transfer.Store.{Tables}
use sync_space.Transfer.Control.{Service, Env, Call, run, is_final, is_failed, is_paused}
use sync_space.Transfer.Steps.{run-keeps}
use sync_space.Transfer.Final.{
  IsKeyed, save_transfer-IsKeyed, delete_history-IsKeyed, lookup-current,
}

abbrev pub is_waiting : Status → Bool
is_waiting queued = true
is_waiting preparing = true
is_waiting connecting = true
is_waiting negotiating = true
is_waiting resuming = true
is_waiting _ = false

abbrev pub has {ℓ} : {A : Type ℓ} → Option A → Bool
has none = false
has (some a) = true

abbrev pub has_status : (Status → Bool) → Option Transfer → Bool
has_status test none = false
has_status test (some t) = test t.status

-- The mirrors of one ID.
pub record AreMirrors (s : Tables) (id : String) : Type 0 where
  pub waiting :
      has (Dict.lookup id s.queued_transfers) ≡ has_status is_waiting (Dict.lookup id s.transfers)
  pub past :
      has (Dict.lookup id s.transfer_history) ≡ has_status is_final (Dict.lookup id s.transfers)
  pub broken :
      has (Dict.lookup id s.failed_transfers) ≡ has_status is_failed (Dict.lookup id s.transfers)
  pub halted :
      has (Dict.lookup id s.paused_transfers) ≡ has_status is_paused (Dict.lookup id s.transfers)

pub record IsMirrored (s : Tables) : Type 0 where
  pub rows : IsKeyed s
  pub mirrors : (id : String) → AreMirrors s id

-- The mirrors after the `switch`, for tables in which the transfer has none.
mirrored-AreMirrors :
    (s : Tables) (t row : Transfer) (id : String) (status : Status)
    → t.status ≡ status
    → row.status ≡ status
    → AreMirrors s id
    → AreMirrors
        (Store.mirrored status
          (Store.unmirrored (record s { transfers = Dict.insert t.id row s.transfers }) t.id)
          t)
        id
unfolding Store.mirrored
mirrored-AreMirrors s t row id status e r m =
    let here = Dict.lookup-insert t.id id row s.transfers in
    let q = Dict.lookup-erase t.id id s.queued_transfers in
    let p = Dict.lookup-erase t.id id s.transfer_history in
    let f = Dict.lookup-erase t.id id s.failed_transfers in
    let h = Dict.lookup-erase t.id id s.paused_transfers in
    let q' =
      Dict.lookup-insert t.id id (t.priority, Store.milli t.updated_at)
        (Dict.erase t.id s.queued_transfers) in
    let p' =
      Dict.lookup-insert t.id id (t.status, Store.finish_time t)
        (Dict.erase t.id s.transfer_history) in
    let f' =
      Dict.lookup-insert t.id id (t.error, Store.milli t.updated_at)
        (Dict.erase t.id s.failed_transfers) in
    let h' =
      Dict.lookup-insert t.id id (Store.milli t.updated_at) (Dict.erase t.id s.paused_transfers) in
    elim (Bool-cases (t.id == id)) [
      | inl hit ↦ ground (arith, hit)
      | inr miss ↦ ground (arith, miss)
    ]

save_transfer-AreMirrors :
    (s : Tables) (t : Transfer) (s' : Tables) (id : String)
    → Store.save_transfer false s t ≡ some s'
    → AreMirrors s id
    → AreMirrors s' id
unfolding Store.save_transfer Store.to_row
save_transfer-AreMirrors s t s' id e m =
    let row = Store.to_row (Dict.lookup t.id s.transfers) t in
    let filed = record s { files = Store.put_files t.id t.files s.files } in
    let done =
      mirrored-AreMirrors filed t row id t.status refl refl
        (record { waiting = m.waiting; past = m.past; broken = m.broken; halted = m.halted }) in
    let same : Store.mirrored t.status (Store.unmirrored (Store.with_row s t) t.id) t ≡ s' =
      ground (arith, e) in
    subst (λ s'. AreMirrors s' id) same done

delete_history-AreMirrors :
    (s s' : Tables) (id : String)
    → Store.delete_history false s ≡ some s'
    → IsKeyed s
    → AreMirrors s id
    → AreMirrors s' id
unfolding Store.delete_history Dict.lookup
delete_history-AreMirrors s s' id e k m =
    let left = lookup-current id s.transfers k.distinct in ground (arith, left, e)

-- If each row stands under its own ID and the mirror tables list exactly the transfers of their
-- states, then they do so after any history.
pub run-IsMirrored :
    (is_uuid : String → Bool) (hash : String → String) (s : Service) (cs : List (Env × Call))
    → IsMirrored s.tables
    → IsMirrored (run is_uuid hash s cs).tables
run-IsMirrored is_uuid hash s cs m =
    run-keeps IsMirrored
      (record {
        saving = λ s id old t s' g nf i e h. record {
          rows = save_transfer-IsKeyed s t s' e h.rows;
          mirrors = λ k. save_transfer-AreMirrors s t s' k e (h.mirrors k);
        };
        deleting = λ s s' e h. record {
          rows = delete_history-IsKeyed s s' e h.rows;
          mirrors = λ k. delete_history-AreMirrors s s' k e h.rows (h.mirrors k);
        };
      })
      is_uuid hash s cs m
