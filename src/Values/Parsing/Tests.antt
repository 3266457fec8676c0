-- ===== src/Values/Parsing/Tests.antt =====
-- The parsers on the texts of the documentation.
use go_kube_downscaler.Prelude.{◌*◌, ◌≡◌, refl, some, pos, [], ◌∷◌, false}
use go_kube_downscaler.Prelude.{◌+ℤ◌, ◌-ℤ◌, ◌*ℤ◌}
use go_kube_downscaler.Text.{text_eq, to_lower, trim_space, split, cut_prefix}
use go_kube_downscaler.Text.Decimal.{parse_int, magnitude}
use go_kube_downscaler.Time.{parse_rfc3339}
use go_kube_downscaler.Values.Parsing.Patterns.{absolute_time_span, relative_time_span}
use go_kube_downscaler.Values.Parsing.{
  parse_time_span, parse_boolean_time_span, absolute_groups, is_directional_timespan,
  parse_relative_time_span, parse_absolute_time_span, get_weekday, weekday_of,
}
use go_kube_downscaler.Fault.{ok, Result}
use go_kube_downscaler.Text.{codes, Text}
use go_kube_downscaler.Time.{Location, second}
use go_kube_downscaler.Time.Duration.{parse_duration}
use go_kube_downscaler.Values.{relative, boolean_span, absolute_span}
use go_kube_downscaler.Values.Parsing.{set_time_spans, set_duration, parse_day_time}

abbrev utc_only : Text → Result Location
utc_only name = ok (record { offset = λ t. pos 0 })

working_hours :
    set_time_spans utc_only (codes "Mon-Fri 08:00-16:30 Europe/Berlin, never")
    ≡ ok (
        some (
          relative (record {
            timezone = some (record { offset = λ t. pos 0 });
            weekday_from = some 1;
            weekday_to = some 5;
            time_from = 480;
            time_to = 990;
          })
          ∷ boolean_span false
          ∷ []))
unfolding set_time_spans parse_time_span parse_boolean_time_span absolute_groups
    is_directional_timespan parse_relative_time_span parse_absolute_time_span get_weekday weekday_of
    parse_day_time set_duration parse_duration parse_rfc3339 text_eq to_lower trim_space split
    cut_prefix parse_int absolute_time_span relative_time_span magnitude ◌+ℤ◌ ◌-ℤ◌ ◌*ℤ◌
working_hours = refl

hour_and_half : set_duration (codes "1h30m") ≡ ok (pos (5400 * second))
unfolding set_time_spans parse_time_span parse_boolean_time_span absolute_groups
    is_directional_timespan parse_relative_time_span parse_absolute_time_span get_weekday weekday_of
    parse_day_time set_duration parse_duration parse_rfc3339 text_eq to_lower trim_space split
    cut_prefix parse_int absolute_time_span relative_time_span magnitude ◌+ℤ◌ ◌-ℤ◌ ◌*ℤ◌
hour_and_half = refl

instants :
    set_time_spans utc_only (codes "2024-01-01T00:00:00Z - 2024-01-02T00:00:00+01:00")
    ≡ ok (some (absolute_span (pos (1704067200 * second)) (pos (1704150000 * second)) ∷ []))
unfolding set_time_spans parse_time_span parse_boolean_time_span absolute_groups
    is_directional_timespan parse_relative_time_span parse_absolute_time_span get_weekday weekday_of
    parse_day_time set_duration parse_duration parse_rfc3339 text_eq to_lower trim_space split
    cut_prefix parse_int absolute_time_span relative_time_span magnitude ◌+ℤ◌ ◌-ℤ◌ ◌*ℤ◌
instants = refl
