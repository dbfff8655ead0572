-- ===== src/Pairing/Timestamps.antt =====
-- The clock check of the protocol's messages (`validProtocolTimestamp` of
-- backend/internal/pairing/crypto.go), whose difference is one of 64 bits.
use sync_space.Base.{ℕ, String, true, some, leb, ltb, if◌then◌else◌, ◌≡◌, ◌<◌, ◌-◌, ◌^◌, arith}
use sync_space.Base.Int.{pos, negsuc, wrap64, ◌-ℤ◌}
use sync_space.Pairing.Crypto.{Primitives, valid_protocol_timestamp}

-- A time after 1970, like the clock, is accepted exactly if it is within the skew on either side.
pub valid_protocol_timestamp_lem :
    (p : Primitives) (value : String) (now skew n : ℕ)
    → now < 2 ^ 63
    → n < 2 ^ 63
    → p.parse_int value ≡ some (pos n)
    → valid_protocol_timestamp p value now skew ≡ leb (if ltb n now then now - n else n - now) skew
unfolding valid_protocol_timestamp wrap64 ◌-ℤ◌
valid_protocol_timestamp_lem p value now skew n hn hm e = ground (arith, e, hn, hm)

-- The time 2^63 seconds before the clock is accepted too: the difference is the least integer of 64
-- bits, which is its own negation and stays below every skew.
pub valid_protocol_timestamp-least :
    (p : Primitives) (value : String) (now skew : ℕ)
    → 0 < now
    → now < 2 ^ 63
    → p.parse_int value ≡ some (negsuc (2 ^ 63 - now - 1))
    → valid_protocol_timestamp p value now skew ≡ true
unfolding valid_protocol_timestamp wrap64 ◌-ℤ◌
valid_protocol_timestamp-least p value now skew h hn e = ground (arith, e, hn, h)
