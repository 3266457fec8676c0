-- ===== src/Values/Parsing.antt =====
-- The parsers of internal/pkg/values/timespan.go, dayTime.go and triStateBool.go, and the Set
-- methods of internal/pkg/util/durationValue.go, weekFrameValue.go and timezoneValue.go.
--
-- The time-zone database of the host is a parameter: what `time.LoadLocation` answers to a name.
pub mod Patterns
pub mod WellFormed
pub mod Evaluable
pub mod Tests
use go_kube_downscaler.Prelude.{
  ℕ, zero, suc, ◌+◌, ◌*◌, Bool, true, false, ◌||◌, ◌&&◌, not, List, [], ◌∷◌, Option, none, some,
  is_some, is_none, if◌then◌else◌, ℤ, pos, ltb_ℤ, pos_part, ◌*ℤ◌,
}
use go_kube_downscaler.Fault.{
  Fault, Result, ok, err, ◌>>=◌, invalid_syntax, invalid_value, parse_failure, invalid_week_frame,
}
use go_kube_downscaler.Text.{Text, codes, text_eq, to_lower, trim_space, cut_prefix, split}
use go_kube_downscaler.Text.Decimal.{atoi, itoa}
use go_kube_downscaler.Text.Matching.{find_submatch}
use go_kube_downscaler.Replicas.{parse_bool}
use go_kube_downscaler.Time.{Location, parse_rfc3339, second}
use go_kube_downscaler.Time.Duration.{parse_duration, wrap64}
use go_kube_downscaler.Values.{
  TimeSpan, RelativeTimeSpan, relative, absolute_span, directional, boolean_span, mode_from,
  mode_until, TimeSpans, TriStateBool, WeekFrame,
}
use go_kube_downscaler.Values.Parsing.Patterns.{
  absolute_time_span, relative_time_span, RelativeMatch,
}

-- `parseBooleanTimeSpan`.
unfoldable pub parse_boolean_time_span : Text → Option Bool
parse_boolean_time_span text =
    if text_eq (to_lower text) (codes "always") || text_eq (to_lower text) (codes "true")
    then some true
    else if text_eq (to_lower text) (codes "never") || text_eq (to_lower text) (codes "false")
    then some false
    else none

-- `isAbsoluteTimespan`: the groups, if the pattern matches.
unfoldable pub absolute_groups : Text → Option (Text × Text)
absolute_groups text = find_submatch absolute_time_span text

unfoldable pub parse_absolute_time_span : Text × Text → Result TimeSpan
parse_absolute_time_span timestamps = do
  from ← parse_rfc3339 (trim_space timestamps.0)
  to ← parse_rfc3339 (trim_space timestamps.1)
  ok (absolute_span from to)

unfoldable pub is_directional_timespan : Text → Bool
is_directional_timespan text =
    is_some (cut_prefix text (codes "from")) || is_some (cut_prefix text (codes "until"))

abbrev drop : ℕ → Text → Text
drop zero s = s
drop (suc n) [] = []
drop (suc n) (c ∷ s) = drop n s

abbrev without_dash : Option Text → Text → Text
without_dash none s = s
without_dash (some r) s = trim_space r

-- The timestamp behind the prefix and an optional dash.
unfoldable pub timestamp_after : ℕ → Text → Text
timestamp_after n trimmed =
    let timespan = trim_space (drop n trimmed) in
    without_dash (cut_prefix timespan (codes "-")) timespan

unfoldable pub directional_at : Text → ℕ → Text → Result TimeSpan
directional_at text mode [] = err (invalid_syntax text)
directional_at text mode (c ∷ s) = do
  time ← parse_rfc3339 (c ∷ s)
  ok (directional (some mode) time)

unfoldable pub parse_directional_time_span : Text → Result TimeSpan
unfolding directional_at timestamp_after
parse_directional_time_span text =
    let trimmed = trim_space text in
    let lowered = to_lower trimmed in
    if text_eq trimmed []
    then err (invalid_syntax text)
    else if is_some (cut_prefix lowered (codes "from"))
    then directional_at text mode_from (timestamp_after 4 trimmed)
    else if is_some (cut_prefix lowered (codes "until"))
    then directional_at text mode_until (timestamp_after 5 trimmed)
    else err (invalid_syntax text)

-- The table of `getWeekday` and of `WeekFrameValue.Set`, for a name in lower case.
unfoldable pub weekday_of : Text → Option ℕ
weekday_of name =
    if text_eq name (codes "sun")
    then some 0
    else if text_eq name (codes "mon")
    then some 1
    else if text_eq name (codes "tue")
    then some 2
    else if text_eq name (codes "wed")
    then some 3
    else if text_eq name (codes "thu")
    then some 4
    else if text_eq name (codes "fri")
    then some 5
    else if text_eq name (codes "sat")
    then some 6
    else none

abbrev known_weekday : Text → Option ℕ → Result (Option ℕ)
known_weekday text none = err (invalid_syntax text)
known_weekday text (some day) = ok (some day)

-- `getWeekday`.
unfoldable pub get_weekday : Text → Result (Option ℕ)
get_weekday [] = ok none
get_weekday (c ∷ s) = known_weekday (c ∷ s) (weekday_of (to_lower (c ∷ s)))

-- The text behind the first colon. Where there is none, the source would panic; the pattern of the
-- caller has a colon.
abbrev second_part : List Text → Result Text
second_part [] = err (parse_failure [])
second_part (t ∷ rest) = ok t

abbrev checked_hour : ℤ → Result ℕ
checked_hour hour =
    if ltb_ℤ hour (pos 0) || ltb_ℤ (pos 24) hour
    then err (invalid_value (itoa hour))
    else ok (pos_part hour)

abbrev checked_minute : ℤ → Result ℕ
checked_minute minute =
    if ltb_ℤ minute (pos 0) || not (ltb_ℤ minute (pos 60))
    then err (invalid_value (itoa minute))
    else ok (pos_part minute)

-- `parseDayTime`: the minutes passed in the day.
unfoldable pub parse_day_time : Text → Result ℕ
parse_day_time s = do
  hour ← atoi (split b':' s).0
  hours ← checked_hour hour
  rest ← second_part (split b':' s).1
  minute ← atoi rest
  minutes ← checked_minute minute
  ok (hours * 60 + minutes)

-- `triStateBool.Set`.
abbrev set_bool : Text → Option Bool → Result TriStateBool
set_bool text none = err (parse_failure text)
set_bool text (some value) = ok (record { is_set = true; value = value })

unfoldable pub set_tri_state : Text → Result TriStateBool
set_tri_state text = set_bool text (parse_bool text)

-- `DurationValue.Set`: seconds, or a duration with units. The product with a second wraps around.
abbrev or_duration : Text → Result ℤ → Result ℤ
or_duration text (ok seconds) = ok (wrap64 (seconds *ℤ pos second))
or_duration text (err e) = parse_duration text

unfoldable pub set_duration : Text → Result ℤ
set_duration text = or_duration text (atoi text)

abbrev frame_day : Text → Option ℕ → Result ℕ
frame_day text none = err (invalid_week_frame text)
frame_day text (some day) = ok day

abbrev week_frame_of : Text → Text × List Text → Result WeekFrame
week_frame_of text (from, []) = err (invalid_week_frame text)
week_frame_of text (from, to ∷ []) = do
  weekday_from ← frame_day from (weekday_of from)
  weekday_to ← frame_day to (weekday_of to)
  ok (record { weekday_from = some weekday_from; weekday_to = some weekday_to })
week_frame_of text (from, to ∷ t ∷ rest) = err (invalid_week_frame text)

-- `WeekFrameValue.Set`.
unfoldable pub set_week_frame : Text → Result WeekFrame
set_week_frame text = week_frame_of text (split b'-' (to_lower text))

module _ (load_location : Text → Result Location) where
  abbrev loaded : Text → Result (Option Location)
  loaded [] = ok none
  loaded (c ∷ s) = do l ← load_location (c ∷ s); ok (some l)

  unfoldable pub relative_of : Text → Option RelativeMatch → Result TimeSpan
  relative_of text none = err (invalid_syntax text)
  relative_of text (some match) = do
    weekday_from ← get_weekday match.from_weekday
    weekday_to ← get_weekday match.to_weekday
    time_from ← parse_day_time match.from_time
    time_to ← parse_day_time match.to_time
    timezone ← loaded match.timezone
    ok (
        relative (record {
          timezone = timezone;
          weekday_from = weekday_from;
          weekday_to = weekday_to;
          time_from = time_from;
          time_to = time_to;
        }))

  unfoldable pub parse_relative_time_span : Text → Result TimeSpan
  unfolding relative_of
  parse_relative_time_span text = relative_of text (find_submatch relative_time_span text)

  -- One field of a list of timespans, after the space around it is cut off: the kinds are tried in
  -- this order.
  abbrev pub or_unboolean : Option Bool → Result TimeSpan → Result TimeSpan
  or_unboolean (some value) rest = ok (boolean_span value)
  or_unboolean none rest = rest

  abbrev pub or_unabsolute : Option (Text × Text) → Result TimeSpan → Result TimeSpan
  or_unabsolute (some groups) rest = parse_absolute_time_span groups
  or_unabsolute none rest = rest

  unfoldable pub parse_time_span : Text → Result TimeSpan
  parse_time_span text = or_unboolean (parse_boolean_time_span text) (
      or_unabsolute (absolute_groups text) (
        if is_directional_timespan text
        then parse_directional_time_span text
        else parse_relative_time_span text))

  unfoldable pub parse_time_spans : List Text → Result (List TimeSpan)
  parse_time_spans [] = ok []
  parse_time_spans (text ∷ texts) = do
    span ← parse_time_span (trim_space text)
    spans ← parse_time_spans texts
    ok (span ∷ spans)

  abbrev fields : Text × List Text → List Text
  fields (t, ts) = t ∷ ts

  -- `timeSpans.Set`: the value to store, or the error with which nothing is stored.
  unfoldable pub set_time_spans : Text → Result TimeSpans
  unfolding parse_time_spans
  set_time_spans value = do spans ← parse_time_spans (fields (split b',' value)); ok (some spans)
