-- ===== src/Transfer/Clock.antt =====
-- The clock check of the transfer protocol (`validProtocolTime` of
-- backend/internal/transfer/service.go); `parse_int` is `strconv.ParseInt` for 64 bits, and the clock is
-- in seconds.
use sync_space.Base.{
  ℕ, String, Bool, true, false, Option, some, none, leb, ltb, if◌then◌else◌, ◌≡◌, ◌<◌, ◌-◌, ◌^◌,
  arith,
}
use sync_space.Base.Int.{ℤ, pos, negsuc, wrap64, ◌-ℤ◌, sub64, ltb_ℤ, leb_ℤ}

unfoldable pub valid_protocol_time : (String → Option ℤ) → String → ℕ → Bool
valid_protocol_time parse_int value now = elim (parse_int value) [
  | none ↦ false
  | some seconds ↦
      let difference = sub64 (pos now) seconds in
      leb_ℤ (if ltb_ℤ difference (pos 0) then sub64 (pos 0) difference else difference) (pos 120)
]

-- For a time from 1970 on, the check accepts exactly two minutes on either side of the clock.
pub valid_protocol_time_lem :
    (parse_int : String → Option ℤ) (value : String) (now n : ℕ)
    → now < 2 ^ 63
    → n < 2 ^ 63
    → parse_int value ≡ some (pos n)
    → valid_protocol_time parse_int value now ≡ leb (if ltb n now then now - n else n - now) 120
unfolding valid_protocol_time wrap64 ◌-ℤ◌
valid_protocol_time_lem parse_int value now n hn hm e = ground (arith, e, hn, hm)

-- The time 2^63 seconds before the clock is accepted: the difference wraps to the least integer of 64
-- bits, and so does its negation.
pub valid_protocol_time-least :
    (parse_int : String → Option ℤ) (value : String) (now : ℕ)
    → 0 < now
    → now < 2 ^ 63
    → parse_int value ≡ some (negsuc (2 ^ 63 - now - 1))
    → valid_protocol_time parse_int value now ≡ true
unfolding valid_protocol_time wrap64 ◌-ℤ◌
valid_protocol_time-least parse_int value now h hn e = ground (arith, e, h, hn)
