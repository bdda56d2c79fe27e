-- ===== src/Clock.antt =====
-- Go's time package as far as the program uses it. A time is the number of nanoseconds since
-- Go's zero time (1 January of year 1), so the zero time is 0; seconds are an int64 that wraps.
use fulmine.Base.{ℕ, ◌≡◌, Bool, arith}
use fulmine.Base.Int.{
  ℤ, pos, negsuc, ltb_ℤ, ◌+ℤ◌, ◌-ℤ◌, scale, floor_div, wrap64, IsInt64, wrap64_of_IsInt64,
  +ℤ_cancel,
}

abbrev pub Time : Type 0
Time = ℤ

abbrev pub nanos : ℕ
nanos = 1000000000

-- Seconds from the zero time to the Unix epoch (`unixToInternal`).
abbrev pub epoch : ℤ
epoch = pos 62135596800

-- `time.Unix(sec, 0)`: the addition of the epoch wraps.
unfoldable pub time_unix : ℤ → Time
unfolding scale wrap64 ◌+ℤ◌
time_unix sec = scale (wrap64 (sec +ℤ epoch)) nanos

-- `t.Unix()`
unfoldable pub unix : Time → ℤ
unfolding floor_div wrap64 ◌-ℤ◌
unix t = wrap64 (floor_div t nanos -ℤ epoch)

-- `t.After(u)`
unfoldable pub after : Time → Time → Bool
after t u = ltb_ℤ u t

-- `t.Add(d)`, for durations that keep the seconds in range.
unfoldable pub add_duration : Time → ℕ → Time
unfolding ◌+ℤ◌
add_duration t d = t +ℤ pos d

floor_div-scale : (z : ℤ) → floor_div (scale z nanos) nanos ≡ z
unfolding floor_div scale
floor_div-scale (pos n) = ground arith
floor_div-scale (negsuc n) = ground arith

-- Seconds survive the way through a time.
pub unix-time_unix : (sec : ℤ) → IsInt64 sec → IsInt64 (sec +ℤ epoch) → unix (time_unix sec) ≡ sec
unfolding unix time_unix
unix-time_unix sec h k =
    rw (wrap64_of_IsInt64 (sec +ℤ epoch) k, floor_div-scale (sec +ℤ epoch), +ℤ_cancel sec epoch)
      (wrap64_of_IsInt64 sec h)
