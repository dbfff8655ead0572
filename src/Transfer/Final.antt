-- ===== src/Transfer/Final.antt =====
-- A transfer that was completed or cancelled stays so (backend/internal/transfer/service.go).
use sync_space.Base.{
  String, Bool, true, false, Option, none, some, List, [], ◌∷◌, ◌≡◌, ◌⊎◌, inl, inr, refl, arith,
  if◌then◌else◌, string_eq, str_eq_iff, Option-cases, Bool-cases, ◌==◌, sym, ap, ◌∙◌,
}
use mathlib.Core.Path.{subst}
use sync_space.Base.Dict
use sync_space.Base.Dict.{Dict}
use sync_space.Transfer.Models.{Transfer, ok}
use sync_space.Transfer.Store
use sync_space.Transfer.Store.{Tables}
use sync_space.Transfer.Control.{Service, Env, Call, run, is_final}
use sync_space.Transfer.Steps.{IsPreserved, run-keeps}

-- Every row stands under its own ID, once.
pub record IsKeyed (s : Tables) : Type 0 where
  pub keyed : Dict.Every (λ id row. row.id ≡ id) s.transfers
  pub distinct : Dict.Distinct s.transfers

-- What a table without past transfers has of an entry.
abbrev pub kept : Option Transfer → Option Transfer
kept none = none
kept (some t) = if Store.is_past t.status then none else some t

pub lookup-current :
    (id : String) (ts : Dict String Transfer)
    → Dict.Distinct ts
    → Dict.lookup id (Store.current ts) ≡ kept (Dict.lookup id ts)
unfolding Store.current Dict.lookup
lookup-current id [] h = refl
lookup-current id ((j, t) ∷ ts) h = ground (arith, str_eq_iff j id, h.0, lookup-current id ts h.1)

current-Distinct : (ts : Dict String Transfer) → Dict.Distinct ts → Dict.Distinct (Store.current ts)
unfolding Store.current
current-Distinct [] h = tt
current-Distinct ((j, t) ∷ ts) h = ground (arith, lookup-current j ts h.1, current-Distinct ts h.1)

current-keyed :
    (ts : Dict String Transfer)
    → Dict.Every (λ id row. row.id ≡ id) ts
    → Dict.Every (λ id row. row.id ≡ id) (Store.current ts)
unfolding Store.current
current-keyed [] h = tt
current-keyed ((j, t) ∷ ts) h = ground (arith, current-keyed ts h.1)

-- The rows after a save, whatever the mirrors are.
pub save_transfer-rows :
    (s : Tables) (t : Transfer) (s' : Tables)
    → Store.save_transfer false s t ≡ some s'
    → s'.transfers ≡ Dict.insert t.id (Store.to_row (Dict.lookup t.id s.transfers) t) s.transfers
unfolding Store.save_transfer Store.mirrored
save_transfer-rows s t s' e = ground (arith, e)

pub save_transfer-IsKeyed :
    (s : Tables) (t : Transfer) (s' : Tables)
    → Store.save_transfer false s t ≡ some s'
    → IsKeyed s
    → IsKeyed s'
unfolding Store.to_row
save_transfer-IsKeyed s t s' e k =
    let row = Store.to_row (Dict.lookup t.id s.transfers) t in
    let rows = save_transfer-rows s t s' e in
    record {
      keyed = rw rows (
          Dict.Every-insert (λ id (row : Transfer). row.id ≡ id) t.id row s.transfers refl k.keyed);
      distinct = rw rows (Dict.insert-Distinct t.id row s.transfers k.distinct);
    }

pub delete_history-IsKeyed :
    (s s' : Tables) → Store.delete_history false s ≡ some s' → IsKeyed s → IsKeyed s'
unfolding Store.delete_history
delete_history-IsKeyed s s' e k =
    let rows : s'.transfers ≡ Store.current s.transfers = ground (arith, e) in
    record {
      keyed = rw rows (current-keyed s.transfers k.keyed);
      distinct = rw rows (current-Distinct s.transfers k.distinct);
    }

pub get_transfer-id :
    (s : Tables) (id : String) (t : Transfer)
    → IsKeyed s
    → Store.get_transfer false s id ≡ ok t
    → (row : Transfer) × (Dict.lookup id s.transfers ≡ some row)
      × (t.id ≡ id)
      × (t.status ≡ row.status)
unfolding Store.get_transfer Store.scan_transfer
get_transfer-id s id t k e = elim (Option-cases (Dict.lookup id s.transfers)) [
  | inl missing ↦ ground (arith, missing, e)
  | inr (row, found) ↦
      let same =
        Dict.Every-lookup (λ id (row : Transfer). row.id ≡ id) id s.transfers k.keyed found in
      (row, found, ground (arith, same, found, e), ground (arith, found, e))
]

-- The row is there unchanged, or its transfer is gone.
abbrev pub Stays : String → Transfer → Tables → Type 0
Stays id row s = (Dict.lookup id s.transfers ≡ some row) ⊎ (Dict.lookup id s.transfers ≡ none)

final_saved :
    (id : String) (row : Transfer) (s : Tables) (other : String) (old t : Transfer) (s' : Tables)
    (old_row : Transfer)
    → is_final row.status ≡ true
    → Dict.lookup other s.transfers ≡ some old_row
    → old.id ≡ other
    → old.status ≡ old_row.status
    → is_final old.status ≡ false
    → t.id ≡ old.id
    → s'.transfers ≡ Dict.insert t.id (Store.to_row (Dict.lookup t.id s.transfers) t) s.transfers
    → Dict.lookup id (Dict.insert t.id (Store.to_row (Dict.lookup t.id s.transfers) t) s.transfers)
      ≡ (if t.id == id
          then some (Store.to_row (Dict.lookup t.id s.transfers) t)
          else Dict.lookup id s.transfers)
    → Stays id row s
    → Stays id row s'
final_saved id row s other old t s' old_row f found old_id status nf i rows next h =
    elim (Bool-cases (t.id == id)) [
      | inl hit ↦
          let same : other ≡ id = sym old_id ∙ sym i ∙ (str_eq_iff t.id id).0 hit in
          let here : Dict.lookup id s.transfers ≡ some old_row =
            subst (λ k. Dict.lookup k s.transfers ≡ some old_row) same found in
          ground (arith, here, h, f, nf, status)
      | inr miss ↦
          let left : Dict.lookup id s'.transfers ≡ Dict.lookup id s.transfers =
            ap (Dict.lookup id) rows ∙ next ∙ (ground (arith, miss)) in
          ground (arith, left, h)
    ]

final-IsPreserved :
    (id : String) (row : Transfer)
    → is_final row.status ≡ true
    → IsPreserved (λ s. IsKeyed s × Stays id row s)
unfolding Store.delete_history
final-IsPreserved id row f = record {
  saving = λ s other old t s' g nf i e h.
      let (old_row, found, old_id, status) = get_transfer-id s other old h.0 g in
      let rows = save_transfer-rows s t s' e in
      let next =
        Dict.lookup-insert t.id id (Store.to_row (Dict.lookup t.id s.transfers) t) s.transfers in
      (
        save_transfer-IsKeyed s t s' e h.0,
        final_saved id row s other old t s' old_row f found old_id status nf i rows next h.1,
      );
  deleting = λ s s' e h.
      let rows : s'.transfers ≡ Store.current s.transfers = ground (arith, e) in
      let left = lookup-current id s.transfers h.0.distinct in
      (delete_history-IsKeyed s s' e h.0, ground (arith, rows, left, h.1));
}

-- If each row stands under its own ID, then after any calls of Reject, Pause, Resume, Cancel, Retry,
-- ProtocolCancel and DeleteHistory that run one after another, with no worker, chunk or Finalize in
-- between, the row of a transfer that was completed or cancelled is unchanged or gone from the table.
pub run-final :
    (is_uuid : String → Bool) (hash : String → String) (s : Service) (cs : List (Env × Call))
    (id : String) (row : Transfer)
    → IsKeyed s.tables
    → Dict.lookup id s.tables.transfers ≡ some row
    → is_final row.status ≡ true
    → Stays id row (run is_uuid hash s cs).tables
run-final is_uuid hash s cs id row k e f =
    (run-keeps _ (final-IsPreserved id row f) is_uuid hash s cs (k, inl e)).1
