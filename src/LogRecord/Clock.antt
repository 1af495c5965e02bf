-- ===== src/LogRecord/Clock.antt =====
-- The DateTime conversions of `Decode` and `Encode` in receiver/opcua/log_record_type.go.
-- An int64 is its bit pattern.
use opentelemetry_collector.Common.{
  ℕ, ◌+◌, ◌-◌, ◌*◌, ◌/◌, ◌%◌, ◌^◌, ◌<◌, ◌≡◌, ◌↔◌, ◌&&◌, pos, negsuc, sub_ℕ, quot_ℕ, signed64,
  wrap64, FitsInt64, ltb, if◌then◌else◌, arith,
}
use opentelemetry_collector.Value.{Time}

-- `unixToOpcuaTicksOffset`
abbrev pub ticks_offset : ℕ
ticks_offset = 116444736000000000

-- The time that `Decode` sets for the ticks read; the time stays as it was if `ticks > 0` fails.
unfoldable pub decode_time : ℕ → Time → Time
decode_time ticks old =
    if ltb 0 ticks && ltb ticks (2 ^ 63)
    then signed64 ((ticks + 2 ^ 64 - ticks_offset) % 2 ^ 64 * 100 % 2 ^ 64)
    else old

-- The ticks that `Encode` writes: `UnixNano` wraps to an int64, and `/` rounds towards zero.
unfoldable pub encode_ticks : Time → ℕ
encode_ticks t = (wrap64 (quot_ℕ (signed64 (wrap64 t)) 100) + ticks_offset) % 2 ^ 64

-- The time, rounded towards 1970 to a whole number of ticks.
abbrev pub whole_ticks : Time → Time
whole_ticks (pos n) = pos (n / 100 * 100)
whole_ticks (negsuc n) = sub_ℕ 0 ((n + 1) / 100 * 100)

pub encode_ticks_range : (t : Time) → FitsInt64 t → (0 < encode_ticks t) × (encode_ticks t < 2 ^ 63)
unfolding encode_ticks
encode_ticks_range (pos n) h = ground arith
encode_ticks_range (negsuc n) h = ground arith

-- A time within the years that nanoseconds in an int64 reach comes back rounded towards 1970 to a
-- multiple of 100 ns.
pub decode_time-encode_ticks :
    (t old : Time) → FitsInt64 t → decode_time (encode_ticks t) old ≡ whole_ticks t
unfolding decode_time encode_ticks
decode_time-encode_ticks (pos n) old h = ground arith
decode_time-encode_ticks (negsuc n) old h = ground arith

-- The instant that a count of ticks since 1601 stands for.
abbrev pub instant : ℕ → Time
instant ticks = sub_ℕ (ticks * 100) (ticks_offset * 100)

-- A positive DateTime is decoded to the instant that it stands for exactly when that instant is
-- within the years that nanoseconds in an int64 reach.
pub decode_time-instant_iff :
    (ticks : ℕ) (old : Time)
    → 0 < ticks
    → ticks < 2 ^ 63
    → (decode_time ticks old ≡ instant ticks) ↔ FitsInt64 (instant ticks)
unfolding decode_time
decode_time-instant_iff ticks old h j = ground arith
