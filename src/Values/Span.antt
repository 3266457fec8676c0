-- ===== src/Values/Span.antt =====
-- internal/pkg/values/timespan.go and dayTime.go: whether an instant lies in a timespan, and in one
-- of a list of them. `now` is what `time.Now()` returns; all calls of one evaluation of the scopes
-- return the same instant.
pub mod Cyclic
pub mod Membership
use go_kube_downscaler.Prelude.{
  ℕ, ◌+◌, ◌*◌, Bool, true, false, not, ◌&&◌, ◌||◌, List, [], ◌∷◌, Option, none, some, ltb, leb,
  ◌==◌, if◌then◌else◌, ℤ, ltb_ℤ, leb_ℤ, eqb_ℤ,
}
use go_kube_downscaler.Fault.{Result, ok, err, is_time_in_span_fault, ◌>>=◌}
use go_kube_downscaler.Time.{Location, weekday, hour, minute}
use go_kube_downscaler.Values.{
  RelativeTimeSpan, TimeSpan, relative, absolute_span, directional, boolean_span, TimeSpans,
  mode_from, mode_until, Scopes,
}
use go_kube_downscaler.Values.Defaults.{FilledTimeSpan, default_time_span}

-- The constants `Hour` and `Minute` of dayTime.go.
abbrev pub hour_minutes : ℕ
hour_minutes = 60

abbrev pub minute_minutes : ℕ
minute_minutes = 1

unfoldable pub extract_day_time : Location → ℤ → ℕ
extract_day_time loc t = hour loc t * hour_minutes + minute loc t * minute_minutes

unfoldable pub is_weekday_in_range : ℕ → ℕ → ℕ → Bool
is_weekday_in_range from to weekday =
    if leb from to then leb from weekday && leb weekday to else leb from weekday || leb weekday to

unfoldable pub is_time_of_day_in_range : ℕ → ℕ → ℕ → Bool
is_time_of_day_in_range from to time_of_day =
    if ltb to from
    then leb from time_of_day || ltb time_of_day to
    else leb from time_of_day && ltb time_of_day to

-- `relativeTimeSpan.isTimeInSpan`, after the defaults are filled in.
unfoldable pub is_in_filled : ℤ → FilledTimeSpan → Bool
unfolding is_weekday_in_range is_time_of_day_in_range
is_in_filled now t =
    is_time_of_day_in_range t.time_from t.time_to (extract_day_time t.timezone now)
    && is_weekday_in_range t.weekday_from t.weekday_to (weekday t.timezone now)

unfoldable pub is_in_relative : ℤ → Scopes → RelativeTimeSpan → Result Bool
unfolding is_in_filled
is_in_relative now scopes t = default_time_span t scopes >>= λ filled. ok (is_in_filled now filled)

-- `absoluteTimeSpan.isTimeInSpan`.
unfoldable pub is_in_absolute : ℤ → ℤ → ℤ → Bool
is_in_absolute now from to = (ltb_ℤ from now || eqb_ℤ from now) && ltb_ℤ now to

-- `directionalTimeSpan.isTimeInSpan`.
unfoldable pub is_in_directional : ℤ → Option ℕ → ℤ → Result Bool
is_in_directional now none time = err is_time_in_span_fault
is_in_directional now (some mode) time =
    if mode == mode_from
    then ok (not (ltb_ℤ now time))
    else if mode == mode_until
    then ok (ltb_ℤ now time)
    else err is_time_in_span_fault

unfoldable pub is_time_in_span : ℤ → Scopes → TimeSpan → Result Bool
unfolding is_in_relative is_in_absolute is_in_directional
is_time_in_span now scopes (relative t) = is_in_relative now scopes t
is_time_in_span now scopes (absolute_span from to) = ok (is_in_absolute now from to)
is_time_in_span now scopes (directional mode time) = is_in_directional now mode time
is_time_in_span now scopes (boolean_span b) = ok b

-- One round of the loop of `inTimeSpans`.
unfoldable pub or_in : Result Bool → Result Bool → Result Bool
or_in (err e) rest = err e
or_in (ok true) rest = ok true
or_in (ok false) rest = rest

unfoldable pub in_spans : ℤ → Scopes → List TimeSpan → Result Bool
unfolding or_in
in_spans now scopes [] = ok false
in_spans now scopes (t ∷ ts) = or_in (is_time_in_span now scopes t) (in_spans now scopes ts)

-- `inTimeSpans`: a nil slice has no elements.
unfoldable pub in_time_spans : ℤ → Scopes → TimeSpans → Result Bool
unfolding in_spans
in_time_spans now scopes none = ok false
in_time_spans now scopes (some spans) = in_spans now scopes spans
