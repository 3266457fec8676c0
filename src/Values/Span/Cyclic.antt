-- ===== src/Values/Span/Cyclic.antt =====
-- Weekday and time ranges that wrap are ranges on a circle.
use mathlib.Core.Path.{ap₂}
use go_kube_downscaler.Prelude.{
  ℕ, ◌+◌, ◌-◌, ◌%◌, ◌<◌, ◌≡◌, ◌≢◌, not, ◌&&◌, ltb, leb, arith, ℤ, pos, ◌+ℤ◌, div_floor,
  mod_floor-lt,
}
use go_kube_downscaler.Time.{Location, local_seconds, weekday, second_of_day, hour, minute}
use go_kube_downscaler.Values.Defaults.{FilledTimeSpan}
use go_kube_downscaler.Values.Span.{
  extract_day_time, is_weekday_in_range, is_time_of_day_in_range, is_in_filled,
}

-- How far `x` lies after `from` on a circle of `n` points.
abbrev pub ahead : ℕ → ℕ → ℕ → ℕ
ahead n from x = (x + n - from) % n

-- A weekday lies in the range, wrapping or not, exactly when it is met on the way from the first
-- day to the last, both included.
pub is_weekday_in_range-ahead :
    (from to day : ℕ)
    → from < 7
    → to < 7
    → day < 7
    → is_weekday_in_range from to day ≡ leb (ahead 7 from day) (ahead 7 from to)
unfolding is_weekday_in_range
is_weekday_in_range-ahead from to day f t d = ground arith

-- A time of day lies in the range exactly when it is met on the way from the first time to the
-- last, the last excluded. From a time to itself the way is empty.
pub is_time_of_day_in_range-ahead :
    (from to time : ℕ)
    → from < 1440
    → to < 1440
    → time < 1440
    → is_time_of_day_in_range from to time ≡ ltb (ahead 1440 from time) (ahead 1440 from to)
unfolding is_time_of_day_in_range
is_time_of_day_in_range-ahead from to time f t d = ground arith

-- The ranges from a to b and from b to a split the day, for different a and b.
pub is_time_of_day_in_range_swap :
    (from to time : ℕ)
    → from ≢ to
    → is_time_of_day_in_range to from time ≡ not (is_time_of_day_in_range from to time)
unfolding is_time_of_day_in_range
is_time_of_day_in_range_swap from to time n = ground arith

second_of_day-lt : (loc : Location) (t : ℤ) → second_of_day loc t < 86400
unfolding second_of_day
second_of_day-lt loc t = mod_floor-lt (local_seconds loc t) 86400 (omega arith)

pub extract_day_time-lt : (loc : Location) (t : ℤ) → extract_day_time loc t < 1440
unfolding extract_day_time hour minute
extract_day_time-lt loc t = omega (arith, second_of_day-lt loc t)

pub weekday-lt : (loc : Location) (t : ℤ) → weekday loc t < 7
unfolding weekday
weekday-lt loc t = mod_floor-lt (div_floor (local_seconds loc t) 86400 +ℤ pos 4) 7 (omega arith)

-- With its fields in range, a filled timespan holds at an instant exactly when the local weekday
-- and the local time of day are both met on the way from the first to the last.
pub is_in_filled-ahead :
    (now : ℤ) (t : FilledTimeSpan)
    → t.weekday_from < 7
    → t.weekday_to < 7
    → t.time_from < 1440
    → t.time_to < 1440
    → is_in_filled now t ≡ (
        ltb
          (ahead 1440 t.time_from (extract_day_time t.timezone now))
          (ahead 1440 t.time_from t.time_to)
        && leb
            (ahead 7 t.weekday_from (weekday t.timezone now))
            (ahead 7 t.weekday_from t.weekday_to))
unfolding is_in_filled
is_in_filled-ahead now t wf wt tf to =
    ap₂ ◌&&◌
      (is_time_of_day_in_range-ahead t.time_from t.time_to (extract_day_time t.timezone now) tf to
        (extract_day_time-lt t.timezone now))
      (is_weekday_in_range-ahead t.weekday_from t.weekday_to (weekday t.timezone now) wf wt
        (weekday-lt t.timezone now))
