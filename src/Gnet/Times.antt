-- ===== src/Gnet/Times.antt =====
-- `time.Time` and `time.Duration`, as the packages of gnet use them. A duration is a number of
-- nanoseconds; zones are left out, since every time is made UTC.
use gk.Common.{ℕ, ◌+◌, ◌/◌, ◌%◌, ◌&&◌, ◌==◌, Bool}
use gk.Common.Int64.{ℤ, pos, negsuc, eq64}

abbrev pub nanosecond : ℕ
nanosecond = 1

abbrev pub microsecond : ℕ
microsecond = 1000

abbrev pub second : ℕ
second = 1000000000

-- `t.Unix()` and `t.Nanosecond()`, which is below a second.
pub record Time : Type 0 where
  pub unix : ℤ
  pub nanos : ℕ

-- The zero time is the first of January of the year 1.
unfoldable pub is_zero : Time → Bool
is_zero t = eq64 t.unix (negsuc 62135596799) && t.nanos == 0

-- `time.Unix(sec, nsec)` for numbers that are not negative.
unfoldable pub time_unix : ℕ → ℕ → Time
time_unix sec nsec = record { unix = pos (sec + nsec / second); nanos = nsec % second }
