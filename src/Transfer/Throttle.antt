-- ===== src/Transfer/Throttle.antt =====
-- The pause that the sender makes before a chunk (`recordCongestion` of
-- backend/internal/transfer/service.go), in nanoseconds. Go's product with 0.8 in floating point,
-- cut to an integer, is four fifths rounded down for the delays of up to a second that occur.
use sync_space.Base.{
  ℕ, zero, suc, Bool, true, false, List, [], ◌∷◌, ◌≡◌, refl, ◌⊎◌, ◌≤◌, ◌*◌, ◌/◌, ltb, if◌then◌else◌,
  ◌==◌, nat_eq, arith,
}

abbrev pub millisecond : ℕ
millisecond = 1_000_000

abbrev pub second : ℕ
second = 1_000_000_000

unfoldable pub record_congestion : ℕ → Bool → ℕ
record_congestion delay true =
    if delay == 0 then 10 * millisecond else if ltb second (delay * 2) then second else delay * 2
record_congestion delay false = let next = delay * 4 / 5 in if ltb next millisecond then 0 else next

unfoldable pub record_all : ℕ → List Bool → ℕ
record_all delay [] = delay
record_all delay (failed ∷ rest) = record_all (record_congestion delay failed) rest

-- No delay, or one between a millisecond and a second.
abbrev pub IsDelay : ℕ → Type 0
IsDelay delay = (delay ≡ 0) ⊎ ((millisecond ≤ delay) × (delay ≤ second))

record_congestion-IsDelay :
    (delay : ℕ) (failed : Bool) → IsDelay delay → IsDelay (record_congestion delay failed)
unfolding record_congestion
record_congestion-IsDelay delay true h = ground arith
record_congestion-IsDelay delay false h = ground arith

-- From no delay or one between a millisecond and a second, any sequence of failures and successes
-- leaves such a delay.
pub record_all-IsDelay :
    (delay : ℕ) (events : List Bool) → IsDelay delay → IsDelay (record_all delay events)
unfolding record_all
record_all-IsDelay delay [] h = h
record_all-IsDelay delay (failed ∷ rest) h =
    record_all-IsDelay (record_congestion delay failed) rest
      (record_congestion-IsDelay delay failed h)

abbrev pub successes : ℕ → List Bool
successes zero = []
successes (suc n) = false ∷ successes n

success_mono : (a b : ℕ) → a ≤ b → record_congestion a false ≤ record_congestion b false
unfolding record_congestion
success_mono a b h = ground arith

successes_mono : (n a b : ℕ) → a ≤ b → record_all a (successes n) ≤ record_all b (successes n)
unfolding record_all
successes_mono zero a b h = h
successes_mono (suc n) a b h =
    successes_mono n (record_congestion a false) (record_congestion b false) (success_mono a b h)

slowest : record_all second (successes 31) ≡ 0
unfolding record_all record_congestion
slowest = refl

-- Thirty-one successes in a row take any delay of at most a second back to none.
pub record_all-successes : (delay : ℕ) → delay ≤ second → record_all delay (successes 31) ≡ 0
record_all-successes delay h =
    let below = successes_mono 31 delay second h in let end = slowest in ground (arith, below, end)
