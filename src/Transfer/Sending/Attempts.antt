-- ===== src/Transfer/Sending/Attempts.antt =====
-- The retries of a chunk (`sendChunk` of backend/internal/transfer/sender.go).
use sync_space.Base.{
  ℕ, zero, suc, ◌+◌, ◌≤◌, ◌<◌, Bool, true, false, ◌≡◌, ◌≢◌, refl, arith, Bool-cases, inl, inr, ◌⊎◌,
}
use sync_space.Transfer.Throttle.{record_congestion}
use sync_space.Transfer.Models.{Outcome, ok, err}
use sync_space.Transfer.Sending.{
  Attempt, cancelled_before, no_client, no_answer, answered, is_success, send_attempts,
}

abbrev pub has_succeeded : Attempt → Bool
has_succeeded (answered status) = is_success status
has_succeeded _ = false

-- An attempt among those left, from the one with a number on, was answered with success.
abbrev pub Succeeds : (ℕ → Attempt × Bool) → ℕ → ℕ → Type 0
Succeeds answer left attempt =
    (k : ℕ) × (k < left) × (has_succeeded (answer (attempt + k)).0 ≡ true)

Attempt-cases :
    (a : Attempt)
    → ((status : ℕ) × (a ≡ answered status))
      ⊎ (a ≡ no_answer)
      ⊎ ((a ≡ cancelled_before) ⊎ (a ≡ no_client))
Attempt-cases (answered status) = inl (status, refl)
Attempt-cases no_answer = inr (inl refl)
Attempt-cases cancelled_before = inr (inr (inl refl))
Attempt-cases no_client = inr (inr (inr refl))

pub send_attempts-bound :
    (left : ℕ) (answer : ℕ → Attempt × Bool) (attempt delay sent : ℕ)
    → (send_attempts left answer attempt delay sent).2 ≤ sent + left
unfolding send_attempts
send_attempts-bound zero answer attempt delay sent = omega arith
send_attempts-bound (suc left) answer attempt delay sent =
    ground (
      arith,
      send_attempts-bound left answer (attempt + 1) (record_congestion delay true) (sent + 1),
    )

-- One attempt that is answered with no success goes on to the next, or ends without success.
later_success :
    (left : ℕ) (answer : ℕ → Attempt × Bool) (attempt delay sent : ℕ) (b : Bool)
    → has_succeeded (answer attempt).0 ≡ false
    → (send_attempts (suc left) answer attempt delay sent).0 ≡ ok b
    → (send_attempts left answer (attempt + 1) (record_congestion delay true) (sent + 1)).0 ≡ ok b
unfolding send_attempts
later_success left answer attempt delay sent b fails h = elim (Attempt-cases (answer attempt).0) [
  | inl (status, e) ↦ ground (arith, e, fails, h)
  | inr (inl e) ↦ ground (arith, e, h)
  | inr (inr (inl e)) ↦ ground (arith, e, h)
  | inr (inr (inr e)) ↦ ground (arith, e, h)
]

pub send_attempts-Succeeds :
    (left : ℕ) (answer : ℕ → Attempt × Bool) (attempt delay sent : ℕ) (b : Bool)
    → (send_attempts left answer attempt delay sent).0 ≡ ok b
    → Succeeds answer left attempt
unfolding send_attempts
send_attempts-Succeeds zero answer attempt delay sent b h = ground (arith, h)
send_attempts-Succeeds (suc left) answer attempt delay sent b h =
    elim (Bool-cases (has_succeeded (answer attempt).0)) [
      | inl good ↦ (0, omega arith, ground (arith, good))
      | inr bad ↦
          let next = later_success left answer attempt delay sent b bad h in
          let (k, within, good) =
            send_attempts-Succeeds left answer (attempt + 1) (record_congestion delay true)
              (sent + 1) b next in
          let shift : attempt + 1 + k ≡ attempt + suc k = omega arith in
          (suc k, omega arith, rw shift at good)
    ]

is_sent : Outcome Bool → Bool
is_sent (ok true) = true
is_sent _ = false

is_sent-ok : (r : Outcome Bool) → is_sent r ≡ true → r ≡ ok true
unfolding is_sent
is_sent-ok (ok true) h = refl
is_sent-ok (ok false) h = cc
is_sent-ok (err e) h = cc

-- Sending a chunk succeeds only by an attempt, among those that are left, that is answered with a
-- status of success; and whether it succeeds or fails, it sends no more requests than attempts are left.
pub send_attempts_lem :
    (left : ℕ) (answer : ℕ → Attempt × Bool) (attempt delay sent : ℕ)
    → (((send_attempts left answer attempt delay sent).0 ≢ ok true) ⊎ Succeeds answer left attempt)
      × ((send_attempts left answer attempt delay sent).2 ≤ sent + left)
send_attempts_lem left answer attempt delay sent =
    let result = (send_attempts left answer attempt delay sent).0 in
    let bound = send_attempts-bound left answer attempt delay sent in
    elim (Bool-cases (is_sent result)) [
      | inl good ↦ (
        inr (send_attempts-Succeeds left answer attempt delay sent true (is_sent-ok result good)),
        bound,
      )
      | inr bad ↦ (inl (λ e. unfold is_sent in ground (arith, e, bad)), bound)
    ]
