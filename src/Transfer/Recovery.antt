-- ===== src/Transfer/Recovery.antt =====
-- The recovery after a restart (`recover` of backend/internal/transfer/service.go and `ListTransfers`
-- of sqlite_store.go).
use sync_space.Base.{
  ℕ, String, Bool, true, false, ◌&&◌, Option, none, some, List, [], ◌∷◌, ◌≡◌, arith, if◌then◌else◌,
  ltb, ◌==◌, string_eq, str_eq_iff, map, All, Bool-cases, Option-cases, inl, inr,
}
use mathlib.Core.Path.{subst}
use sync_space.Base.Dict
use sync_space.Base.Dict.{Dict}
use sync_space.Base.Int.{ltb_ℤ, int_eq}
use sync_space.Transfer.Models.{
  Status, queued, preparing, connecting, negotiating, sending, receiving, resuming, verifying,
  is_inbound, Transfer, TransferError, storage,
}
use sync_space.Transfer.Store
use sync_space.Transfer.Store.{Tables}
use sync_space.Transfer.Control.{Env}
use sync_space.Transfer.Final.{IsKeyed, save_transfer-rows}

-- `ORDER BY priority ASC, created_at ASC`
abbrev before : Transfer → Transfer → Bool
before a b =
    if a.priority == b.priority then ltb a.created_at b.created_at else ltb_ℤ a.priority b.priority

unfoldable pub place : Transfer → List Transfer → List Transfer
place t [] = t ∷ []
place t (u ∷ us) = if before u t then u ∷ place t us else t ∷ u ∷ us

unfoldable pub in_order : Dict String Transfer → List Transfer
unfolding place
in_order [] = []
in_order ((id, row) ∷ rows) = place row (in_order rows)

unfoldable pub list_transfers : Tables → List Transfer
unfolding in_order
list_transfers s = map (Store.loaded s) (in_order s.transfers)

-- The states in which a stop of the program leaves a transfer that nobody works on.
abbrev pub is_interrupted : Status → Bool
is_interrupted preparing = true
is_interrupted connecting = true
is_interrupted negotiating = true
is_interrupted sending = true
is_interrupted resuming = true
is_interrupted _ = false

abbrev pub is_verifying : Status → Bool
is_verifying verifying = true
is_verifying _ = false

abbrev pub is_stuck : Transfer → Bool
is_stuck t = if is_inbound t.direction then is_verifying t.status else is_interrupted t.status

abbrev pub recovered : ℕ → Transfer → Transfer
recovered now t =
    if is_inbound t.direction
    then record t { status = receiving; updated_at = now }
    else record t { status = queued; updated_at = now; error = "recovered after restart" }

-- The loop; a failing save ends it.
unfoldable pub recover_all : Env → Tables → List Transfer → Option TransferError × Tables
recover_all env s [] = (none, s)
recover_all env s (t ∷ ts) =
    if is_stuck t
    then elim (Store.save_transfer env.save_fails s (recovered env.now t)) [
      | none ↦ (some storage, s)
      | some s' ↦ recover_all env s' ts
    ]
    else recover_all env s ts

unfoldable pub recover : Env → Tables → Option TransferError × Tables
unfolding recover_all list_transfers
recover env s = if env.get_fails then (some storage, s) else recover_all env s (list_transfers s)

-- The row under an ID, if any, is not stuck.
abbrev stuck : Option Transfer → Bool
stuck none = false
stuck (some row) = is_stuck row

saved-stuck :
    (s : Tables) (now : ℕ) (t : Transfer) (s' : Tables) (id : String)
    → Store.save_transfer false s (recovered now t) ≡ some s'
    → stuck (Dict.lookup id s'.transfers) ≡ true
    → (stuck (Dict.lookup id s.transfers) ≡ true) × ((t.id == id) ≡ false)
unfolding Store.to_row
saved-stuck s now t s' id e h =
    let u = recovered now t in
    let rows = save_transfer-rows s u s' e in
    let next =
      Dict.lookup-insert u.id id (Store.to_row (Dict.lookup u.id s.transfers) u) s.transfers in
    elim (Bool-cases (is_inbound t.direction)) [
      | inl t ↦ ground (arith, rows, next, h, t)
      | inr t ↦ ground (arith, rows, next, h, t)
    ]

-- What the loop is owed of an ID that is stuck at its end.
abbrev NotStuck : String → Transfer → Type 0
NotStuck id t = ((t.id == id) && is_stuck t) ≡ false

recover_all-NotStuck :
    (env : Env) (s : Tables) (ts : List Transfer) (id : String)
    → env.save_fails ≡ false
    → stuck (Dict.lookup id (recover_all env s ts).1.transfers) ≡ true
    → (stuck (Dict.lookup id s.transfers) ≡ true) × All (NotStuck id) ts
unfolding recover_all
recover_all-NotStuck env s [] id f h = (h, tt)
recover_all-NotStuck env s (t ∷ ts) id f h = elim (Bool-cases (is_stuck t)) [
  | inr free ↦
      let rest = recover_all-NotStuck env s ts id f (ground (arith, free, h)) in
      (rest.0, (ground (arith, free), rest.1))
  | inl held ↦ elim (Option-cases (Store.save_transfer false s (recovered env.now t))) [
    | inl lost ↦ (unfold Store.save_transfer in ground (arith, lost))
    | inr (s', saved) ↦
        let rest = recover_all-NotStuck env s' ts id f (ground (arith, held, f, saved, h)) in
        let first = saved-stuck s env.now t s' id saved rest.0 in
        (first.0, (ground (arith, first.1), rest.1))
  ]
]

place-All :
    (load : Transfer → Transfer) (P : Transfer → Type 0) (t : Transfer) (ts : List Transfer)
    → All P (map load (place t ts))
    → P (load t) × All P (map load ts)
unfolding place
place-All load P t [] h = h
place-All load P t (u ∷ us) h = elim (Bool-cases (before u t)) [
  | inl later ↦
      let shape : place t (u ∷ us) ≡ u ∷ place t us = ground (arith, later) in
      let split : P (load u) × All P (map load (place t us)) =
        subst (λ l. All P (map load l)) shape h in
      let rest = place-All load P t us split.1 in (rest.0, (split.0, rest.1))
  | inr here ↦
      let shape : place t (u ∷ us) ≡ t ∷ u ∷ us = ground (arith, here) in
      subst (λ l. All P (map load l)) shape h
]

in_order-Every :
    (load : Transfer → Transfer) (P : Transfer → Type 0) (rows : Dict String Transfer)
    → All P (map load (in_order rows))
    → Dict.Every (λ id row. P (load row)) rows
unfolding in_order
in_order-Every load P [] h = tt
in_order-Every load P ((id, row) ∷ rows) h =
    let split = place-All load P row (in_order rows) h in
    (split.0, in_order-Every load P rows split.1)

-- If each row stands under its own ID and the database answers, then after the recovery no sent
-- transfer is in a state between its queue and its end that only a running worker leaves, and no
-- received one is being verified.
pub recover-is_stuck :
    (env : Env) (s : Tables) (id : String) (row : Transfer)
    → IsKeyed s
    → env.get_fails ≡ false
    → env.save_fails ≡ false
    → Dict.lookup id (recover env s).1.transfers ≡ some row
    → is_stuck row ≡ false
unfolding recover list_transfers Store.scan_transfer
recover-is_stuck env s id row k g f e = elim (Bool-cases (is_stuck row)) [
  | inr free ↦ free
  | inl held ↦
      let end : stuck (Dict.lookup id (recover_all env s (list_transfers s)).1.transfers) ≡ true =
        ground (arith, g, e, held) in
      let (before_it, listed) = recover_all-NotStuck env s (list_transfers s) id f end in
      let rows = in_order-Every (Store.loaded s) (NotStuck id) s.transfers listed in
      elim (Option-cases (Dict.lookup id s.transfers)) [
        | inl missing ↦ ground (arith, missing, before_it)
        | inr (old, found) ↦
            let own =
              Dict.Every-lookup (λ id (row : Transfer). row.id ≡ id) id s.transfers k.keyed found in
            let free =
              Dict.Every-lookup (λ other (row : Transfer). NotStuck id (Store.loaded s row)) id
                s.transfers rows found in
            ground (arith, found, before_it, own, free, str_eq_iff old.id id)
      ]
]
