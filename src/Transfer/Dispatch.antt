-- ===== src/Transfer/Dispatch.antt =====
-- The start of workers for the transfers that wait (`dispatch` of
-- backend/internal/transfer/service.go). `active` is the key set of the map `s.active`, which the code
-- compares with the limit; the transfers that a call starts goroutines for are its second result, so that
-- one whose key is there already, and which gets another, is seen. A goroutine itself is
-- Transfer/Sending/Outbound.
pub mod Order
use sync_space.Base.{
  ℕ, ◌+◌, ◌≤◌, ◌<◌, String, Bool, true, false, not, ◌&&◌, Option, none, some, List, [], ◌∷◌, ◌++◌,
  ◌≡◌, ◌⊎◌, inl, inr, refl, arith, if◌then◌else◌, leb, length, ◌==◌, string_eq, str_eq_iff, All,
  Bool-cases,
}
use mathlib.Core.List.{append_assoc}
use sync_space.Base.Int.{ltb_ℤ}
use sync_space.Transfer.Models.{Status, queued, resuming, is_inbound, Transfer}

abbrev pub is_waiting_state : Status → Bool
is_waiting_state queued = true
is_waiting_state resuming = true
is_waiting_state _ = false

abbrev pub is_waiting : Transfer → Bool
is_waiting t = not (is_inbound t.direction) && is_waiting_state t.status

-- `sort.SliceStable` by the priority.
unfoldable pub place : Transfer → List Transfer → List Transfer
place t [] = t ∷ []
place t (u ∷ us) = if ltb_ℤ u.priority t.priority then u ∷ place t us else t ∷ u ∷ us

unfoldable pub by_priority : List Transfer → List Transfer
unfolding place
by_priority [] = []
by_priority (t ∷ ts) = place t (by_priority ts)

-- `s.active[id] = cancel`
unfoldable pub activate : String → List String → List String
activate id [] = id ∷ []
activate id (a ∷ as_keys) = if a == id then a ∷ as_keys else a ∷ activate id as_keys

-- The loop, with the transfers that goroutines were started for so far, one entry for each goroutine.
unfoldable pub dispatch_loop :
    ℕ → List String → List Transfer → List Transfer → List String × List Transfer
unfolding activate
dispatch_loop max active started [] = (active, started)
dispatch_loop max active started (t ∷ ts) =
    let rest =
      dispatch_loop max (if is_waiting t then activate t.id active else active)
        (if is_waiting t then started ++ t ∷ [] else started) ts in
    if leb max (length active) then (active, started) else rest

-- `items` is none where the database fails.
unfoldable pub dispatch : ℕ → List String → Option (List Transfer) → List String × List Transfer
unfolding by_priority dispatch_loop
dispatch max active none = (active, [])
dispatch max active (some items) =
    if leb max (length active)
    then (active, [])
    else dispatch_loop max active [] (by_priority items)
