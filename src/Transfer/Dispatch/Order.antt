-- ===== src/Transfer/Dispatch/Order.antt =====
-- Which transfers a dispatch starts workers for (backend/internal/transfer/service.go).
use sync_space.Base.{
  ℕ, ◌+◌, ◌≤◌, ◌<◌, String, true, false, some, List, [], ◌∷◌, ◌++◌, ◌≡◌, ◌⊎◌, inl, inr, refl, arith,
  if◌then◌else◌, leb, length, string_eq, str_eq_iff, All, Bool-cases, ◌==◌,
}
use mathlib.Core.List.{append_assoc}
use sync_space.Base.Int.{ltb_ℤ}
use sync_space.Transfer.Models.{Transfer}
use sync_space.Transfer.Dispatch.{is_waiting, place, by_priority, activate, dispatch_loop, dispatch}

unfoldable pub waiting_of : List Transfer → List Transfer
waiting_of [] = []
waiting_of (t ∷ ts) = let rest = waiting_of ts in if is_waiting t then t ∷ rest else rest

length-activate :
    (id : String) (active : List String) → length (activate id active) ≤ length active + 1
unfolding activate
length-activate id [] = omega arith
length-activate id (a ∷ as_keys) = ground (arith, length-activate id as_keys)

dispatch_loop-bound :
    (max : ℕ) (active : List String) (started ts : List Transfer)
    → length active ≤ max
    → length (dispatch_loop max active started ts).0 ≤ max
unfolding dispatch_loop
dispatch_loop-bound max active started [] h = h
dispatch_loop-bound max active started (t ∷ ts) h = elim (Bool-cases (leb max (length active))) [
  | inl full ↦ ground (arith, full, h)
  | inr free ↦ elim (Bool-cases (is_waiting t)) [
    | inl waits ↦
        let next =
          dispatch_loop-bound max (activate t.id active) (started ++ t ∷ []) ts
            (ground (arith, free, length-activate t.id active)) in
        ground (arith, free, waits, next)
    | inr stays ↦
        let next = dispatch_loop-bound max active started ts h in ground (arith, free, stays, next)
  ]
]

dispatch_loop-order :
    (max : ℕ) (active : List String) (started ts : List Transfer)
    → (rest : List Transfer) × ((dispatch_loop max active started ts).1 ++ rest
        ≡ started ++ waiting_of ts)
      × ((rest ≡ []) ⊎ (max ≤ length (dispatch_loop max active started ts).0))
unfolding dispatch_loop waiting_of
dispatch_loop-order max active started [] = ([], refl, inl refl)
dispatch_loop-order max active started (t ∷ ts) = elim (Bool-cases (leb max (length active))) [
  | inl full ↦ (waiting_of (t ∷ ts), ground (arith, full), inr (ground (arith, full)))
  | inr free ↦ elim (Bool-cases (is_waiting t)) [
    | inl waits ↦
        let (rest, all, end) =
          dispatch_loop-order max (activate t.id active) (started ++ t ∷ []) ts in
        (
          rest,
          ground (arith, free, waits, all, append_assoc started (t ∷ []) (waiting_of ts)),
          ground (arith, free, waits, end),
        )
    | inr stays ↦
        let (rest, all, end) = dispatch_loop-order max active started ts in
        (rest, ground (arith, free, stays, all), ground (arith, free, stays, end))
  ]
]

-- No transfer stands before one of a smaller priority.
abbrev pub IsSorted : List Transfer → Type 0
IsSorted [] = Unit
IsSorted (t ∷ ts) = All (λ u. ltb_ℤ u.priority t.priority ≡ false) ts × IsSorted ts

place-All :
    (P : Transfer → Type 0) (t : Transfer) (ts : List Transfer)
    → P t
    → All P ts
    → All P (place t ts)
unfolding place
place-All P t [] h hs = (h, tt)
place-All P t (u ∷ us) h (g, gs) = elim (Bool-cases (ltb_ℤ u.priority t.priority)) [
  | inl before ↦ rw before (g, place-All P t us h gs)
  | inr after ↦ rw after (h, (g, gs))
]

All-weaken :
    (P Q : Transfer → Type 0) (ts : List Transfer)
    → ((t : Transfer) → P t → Q t)
    → All P ts
    → All Q ts
All-weaken P Q [] f h = tt
All-weaken P Q (t ∷ ts) f (h, hs) = (f t h, All-weaken P Q ts f hs)

place-IsSorted : (t : Transfer) (ts : List Transfer) → IsSorted ts → IsSorted (place t ts)
unfolding place
place-IsSorted t [] h = (tt, tt)
place-IsSorted t (u ∷ us) (h, hs) = elim (Bool-cases (ltb_ℤ u.priority t.priority)) [
  | inl before ↦ rw before (
    place-All (λ v. ltb_ℤ v.priority u.priority ≡ false) t us (ground (arith, before)) h,
    place-IsSorted t us hs,
  )
  | inr after ↦ rw after (
    (
      after,
      All-weaken (λ v. ltb_ℤ v.priority u.priority ≡ false)
          (λ v. ltb_ℤ v.priority t.priority ≡ false) us (λ v g. ground (arith, g, after)) h,
    ),
    (h, hs),
  )
]

by_priority-IsSorted : (ts : List Transfer) → IsSorted (by_priority ts)
unfolding by_priority
by_priority-IsSorted [] = tt
by_priority-IsSorted (t ∷ ts) = place-IsSorted t (by_priority ts) (by_priority-IsSorted ts)

waiting_of-All : (P : Transfer → Type 0) (ts : List Transfer) → All P ts → All P (waiting_of ts)
unfolding waiting_of
waiting_of-All P [] h = h
waiting_of-All P (t ∷ ts) (h, hs) = elim (Bool-cases (is_waiting t)) [
  | inl waits ↦ rw waits (h, waiting_of-All P ts hs)
  | inr stays ↦ rw stays (waiting_of-All P ts hs)
]

waiting_of-IsSorted : (ts : List Transfer) → IsSorted ts → IsSorted (waiting_of ts)
unfolding waiting_of
waiting_of-IsSorted [] h = h
waiting_of-IsSorted (t ∷ ts) (h, hs) = elim (Bool-cases (is_waiting t)) [
  | inl waits ↦
      rw waits
        (waiting_of-All (λ u. ltb_ℤ u.priority t.priority ≡ false) ts h, waiting_of-IsSorted ts hs)
  | inr stays ↦ rw stays (waiting_of-IsSorted ts hs)
]

-- From a table of active transfers with at most as many keys as the limit, a dispatch leads to one with
-- at most as many; the transfers that it starts goroutines for and some rest are, together and in this
-- order, the waiting ones, sorted by priority; and there is no rest unless the table is full.
pub dispatch_lem :
    (max : ℕ) (active : List String) (items : List Transfer)
    → length active ≤ max
    → (rest : List Transfer) × (length (dispatch max active (some items)).0 ≤ max)
      × ((dispatch max active (some items)).1 ++ rest ≡ waiting_of (by_priority items))
      × IsSorted ((dispatch max active (some items)).1 ++ rest)
      × ((rest ≡ []) ⊎ (max ≤ length (dispatch max active (some items)).0))
unfolding dispatch
dispatch_lem max active items h =
    let sorted = waiting_of-IsSorted (by_priority items) (by_priority-IsSorted items) in
    elim (Bool-cases (leb max (length active))) [
      | inl full ↦
          rw full (waiting_of (by_priority items), h, refl, sorted, inr (ground (arith, full)))
      | inr free ↦
          let (rest, all, end) = dispatch_loop-order max active [] (by_priority items) in
          rw free
            (rest, dispatch_loop-bound max active [] (by_priority items) h, all, rw all sorted, end)
    ]

-- How many entries a transfer has among the keys, and among the transfers that were started.
abbrev pub count_key : String → List String → ℕ
count_key id [] = 0
count_key id (a ∷ as_keys) = (if a == id then 1 else 0) + count_key id as_keys

abbrev pub count_started : String → List Transfer → ℕ
count_started id [] = 0
count_started id (t ∷ ts) = (if t.id == id then 1 else 0) + count_started id ts

count_started-append :
    (id : String) (ts us : List Transfer)
    → count_started id (ts ++ us) ≡ count_started id ts + count_started id us
count_started-append id [] us = omega arith
count_started-append id (t ∷ ts) us = ground (arith, count_started-append id ts us)

dispatch_loop-keeps :
    (max : ℕ) (id : String) (active : List String) (started ts : List Transfer)
    → count_started id started ≤ count_started id (dispatch_loop max active started ts).1
unfolding dispatch_loop
dispatch_loop-keeps max id active started [] = omega arith
dispatch_loop-keeps max id active started (t ∷ ts) = ground (
  arith,
  dispatch_loop-keeps max id (activate t.id active) (started ++ t ∷ []) ts,
  dispatch_loop-keeps max id active started ts,
  count_started-append id started (t ∷ []),
)

-- The loop comes to a waiting transfer when the table has room for those before it.
dispatch_loop-starts :
    (max : ℕ) (active : List String) (started before after : List Transfer) (t : Transfer)
    → is_waiting t ≡ true
    → length active + length (waiting_of before) < max
    → 1 ≤ count_started t.id (dispatch_loop max active started (before ++ t ∷ after)).1
unfolding dispatch_loop waiting_of
dispatch_loop-starts max active started [] after t w room =
    let free : leb max (length active) ≡ false = ground (arith, room) in
    let kept = dispatch_loop-keeps max t.id (activate t.id active) (started ++ t ∷ []) after in
    rw (free, w)
      (ground (arith, kept, count_started-append t.id started (t ∷ []), str_eq_iff t.id t.id))
dispatch_loop-starts max active started (u ∷ us) after t w room = elim (Bool-cases (is_waiting u)) [
  | inl waits ↦
      let next =
        dispatch_loop-starts max (activate u.id active) (started ++ u ∷ []) us after t w
          (ground (arith, waits, room, length-activate u.id active)) in
      ground (arith, waits, room, next)
  | inr stays ↦
      let next =
        dispatch_loop-starts max active started us after t w (ground (arith, stays, room)) in
      ground (arith, stays, room, next)
]

-- A transfer that still waits in the table although it has an active worker is given another one,
-- whatever else the table holds, if there is room for it and for all waiting ones that stand before it
-- in the order of priority: nothing asks for its own key.
pub dispatch-restarts :
    (max : ℕ) (active : List String) (items before after : List Transfer) (t : Transfer)
    → by_priority items ≡ before ++ t ∷ after
    → is_waiting t ≡ true
    → 1 ≤ count_key t.id active
    → length active + length (waiting_of before) < max
    → 2 ≤ count_key t.id active + count_started t.id (dispatch max active (some items)).1
unfolding dispatch
dispatch-restarts max active items before after t e w busy room =
    let starts = dispatch_loop-starts max active [] before after t w room in
    let free : leb max (length active) ≡ false = ground (arith, room) in
    rw (free, e) (omega (arith, starts, busy))
