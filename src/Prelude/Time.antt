-- ===== src/Prelude/Time.antt =====
-- `time.Time`: the zero time, or an instant from the first millisecond of 1970 on. Columns of the
-- database hold milliseconds since 1970, 0 for the zero time.
use Prim.Native.Nat.{ℕ, ◌*◌, ◌/◌, ◌+◌, ◌-◌, ◌<◌}
use mathlib.Core.Path.{◌≡◌}
use mathlib.Core.Bool.{Bool, true, false}
use native.Mathlib.Omega.{arith}
use tumblr_dms.Prelude.Tests.{ltb, ◌==◌, if◌then◌else◌}

pub data Time : Type 0 where
  zero_time : Time
  instant : ℕ → Time  -- so many nanoseconds after 1970-01-01T00:00:00.001Z

-- t.IsZero()
abbrev pub is_zero : Time → Bool
is_zero zero_time = true
is_zero (instant n) = false

-- t.UnixMilli(), but 0 for the zero time, where Go has a negative number. The code compares or stores it behind a test of
-- `IsZero` or against a positive number, except that GetNextDue of the jobs takes any time, which its model tells apart, and
-- that what a column holds of it reads back as the zero time.
abbrev pub unix_milli : Time → ℕ
unix_milli zero_time = 0
unix_milli (instant n) = n / 1000000 + 1

-- t.After(u)
abbrev pub after : Time → Time → Bool
after zero_time u = false
after (instant n) zero_time = true
after (instant n) (instant m) = ltb m n

-- t.Before(u)
abbrev pub before : Time → Time → Bool
before t u = after u t

-- t.Add(d), for a `d` that is not negative. The code adds to the current time only, which is not the zero time.
abbrev pub add : Time → ℕ → Time
add zero_time d = zero_time
add (instant n) d = instant (n + d)

-- t.Sub(u), 0 where it is negative.
abbrev pub sub : Time → Time → ℕ
sub (instant n) (instant m) = n - m
sub zero_time u = 0
sub (instant n) zero_time = n

-- timeFromMillis(timestamp)
unfoldable pub time_from_millis : ℕ → Time
time_from_millis ts = if ts == 0 then zero_time else instant ((ts - 1) * 1000000)

-- A time that a column holds comes back as the column's number.
pub unix_milli-time_from_millis : (ts : ℕ) → unix_milli (time_from_millis ts) ≡ ts
unfolding time_from_millis
unix_milli-time_from_millis ts = ground arith

pub is_zero-time_from_millis : (ts : ℕ) → is_zero (time_from_millis ts) ≡ (ts == 0)
unfolding time_from_millis
is_zero-time_from_millis ts = ground arith

pub after-time_from_millis :
    (a b : ℕ) → 0 < b → after (time_from_millis a) (time_from_millis b) ≡ ltb b a
unfolding time_from_millis
after-time_from_millis a b h = ground arith

pub unix_milli-pos : (t : Time) → is_zero t ≡ false → 0 < unix_milli t
unix_milli-pos zero_time h = cc
unix_milli-pos (instant n) h = omega arith
