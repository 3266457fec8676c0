-- ===== src/Examples/Parsers.antt =====
-- The theorems on the parsers, at concrete texts.
use go_kube_downscaler.Prelude.{
  ◌≡◌, refl, true, false, List, [], ◌∷◌, none, some, All, pos, negsuc, arith,
}
use go_kube_downscaler.Fault.{ok, err, is_ok, invalid_replica_type}
use go_kube_downscaler.Text.{
  Text, codes, is_letter, is_alpha, to_lower, text_eq, trim_space, split, cut_prefix, cut_suffix,
  rev,
}
use go_kube_downscaler.Text.Decimal.{itoa, parse_int}
use go_kube_downscaler.Text.Decimal.RoundTrip.{parse_int-itoa}
use go_kube_downscaler.Dict.{Dict, lookup}
use go_kube_downscaler.Replicas.{percentage, to_text, set, parse_bool}
use go_kube_downscaler.Replicas.RoundTrip.{set-to_text, set-mixed}
use go_kube_downscaler.Values.{Scope, TimeSpan, new_scope, relative, boolean_span}
use go_kube_downscaler.Values.Span.{in_time_spans}
use go_kube_downscaler.Values.Defaults.{
  get_default_timezone, get_default_weekday_from, get_default_weekday_to,
}
use go_kube_downscaler.Values.ScopeScaling.{
  check_for_incompatible_fields, get_scope_scaling, get_force_scaling,
}
use go_kube_downscaler.Values.Parsing.{
  set_time_spans, parse_time_spans, parse_time_span, parse_boolean_time_span, absolute_groups,
  is_directional_timespan, parse_relative_time_span, get_weekday, weekday_of, parse_day_time,
  set_tri_state,
}
use go_kube_downscaler.Values.Parsing.Patterns.{absolute_time_span, relative_time_span}
use go_kube_downscaler.Values.Parsing.WellFormed.{IsWellFormed, parse_time_spans-IsWellFormed}
use go_kube_downscaler.Values.Parsing.Evaluable.{HasDefaults, in_time_spans-set}
use go_kube_downscaler.Values.ScopeParser.{
  annotation_downtime, annotation_exclusion_upscale, get_scope_from_annotations,
}
use go_kube_downscaler.Values.ScopeParser.Fields.{IsReadFrom, get_scope_from_annotations-IsReadFrom}
use go_kube_downscaler.Values.ScopeParser.Complete.{
  is_complete, get_scope_from_annotations_complete,
}
use go_kube_downscaler.Examples.{utc_only, empty_scope, resting}

parse_int-itoa_example : parse_int 32 (itoa (negsuc 41)) ≡ ok (negsuc 41)
parse_int-itoa_example = parse_int-itoa 32 (negsuc 41) (omega arith) (omega arith, omega arith)

set-to_text_example : set (to_text (percentage (pos 50))) ≡ ok (percentage (pos 50))
set-to_text_example = set-to_text (percentage (pos 50)) (omega arith)

class_tail : is_alpha (codes "ginx-internal") ≡ false
unfolding is_alpha is_letter
class_tail = refl

class_no_percentage : cut_suffix (codes "nginx-internal") (37 ∷ []) ≡ none
unfolding cut_suffix cut_prefix rev
class_no_percentage = refl

class_letter : is_letter 110 ≡ true
unfolding is_letter
class_letter = refl

set-mixed_example :
    set (codes "nginx-internal") ≡ err (invalid_replica_type (codes "nginx-internal"))
set-mixed_example =
    set-mixed 110 (codes "ginx-internal") class_letter class_tail class_no_percentage

-- A text with one relative timespan and one boolean.
abbrev hours_text : Text
hours_text = codes "Mon-Fri 08:00-16:30, never"

abbrev hours : List TimeSpan
hours =
    relative (record {
      timezone = none;
      weekday_from = some 1;
      weekday_to = some 5;
      time_from = 480;
      time_to = 990;
    })
    ∷ boolean_span false
    ∷ []

abbrev hours_fields : List Text
hours_fields = codes "Mon-Fri 08:00-16:30" ∷ codes " never" ∷ []

hours_parsed : parse_time_spans utc_only hours_fields ≡ ok hours
unfolding parse_time_spans parse_time_span parse_boolean_time_span absolute_groups
    is_directional_timespan parse_relative_time_span get_weekday weekday_of parse_day_time text_eq
    to_lower trim_space split cut_prefix parse_int absolute_time_span relative_time_span
hours_parsed = refl

parse_time_spans-IsWellFormed_example : All IsWellFormed hours
parse_time_spans-IsWellFormed_example =
    parse_time_spans-IsWellFormed utc_only hours_fields hours hours_parsed

hours_set : set_time_spans utc_only hours_text ≡ ok (some hours)
unfolding set_time_spans parse_time_span parse_boolean_time_span absolute_groups
    is_directional_timespan parse_relative_time_span get_weekday weekday_of parse_day_time text_eq
    to_lower trim_space split cut_prefix parse_int absolute_time_span relative_time_span
hours_set = refl

resting-HasDefaults : HasDefaults resting
unfolding get_default_timezone get_default_weekday_from get_default_weekday_to
resting-HasDefaults = (refl, refl, refl)

in_time_spans-set_example : is_ok (in_time_spans (pos 0) resting (some hours)) ≡ true
in_time_spans-set_example =
    in_time_spans-set utc_only hours_text (some hours) (pos 0) resting hours_set resting-HasDefaults

-- An annotation with a downtime, and one whose value is refused.
abbrev annotated : Dict Text
annotated = (annotation_downtime, hours_text) ∷ (annotation_exclusion_upscale, codes "perhaps") ∷ []

abbrev annotated_scope : Scope
annotated_scope = record empty_scope { down_time = some hours }

annotated-read : get_scope_from_annotations utc_only annotated new_scope ≡ ok annotated_scope
unfolding parse_bool get_scope_from_annotations new_scope check_for_incompatible_fields lookup
    set_tri_state set_time_spans parse_time_span parse_boolean_time_span absolute_groups
    is_directional_timespan parse_relative_time_span get_weekday weekday_of parse_day_time text_eq
    to_lower trim_space split cut_prefix parse_int absolute_time_span relative_time_span
annotated-read = refl

get_scope_from_annotations-IsReadFrom_example :
    IsReadFrom utc_only annotated new_scope annotated_scope
get_scope_from_annotations-IsReadFrom_example =
    get_scope_from_annotations-IsReadFrom utc_only annotated new_scope annotated_scope
      annotated-read

get_scope_from_annotations_complete_example :
    (is_complete (get_scope_scaling (pos 0) resting annotated_scope) ≡ true)
    × (is_complete (get_force_scaling (pos 0) resting annotated_scope) ≡ true)
get_scope_from_annotations_complete_example =
    get_scope_from_annotations_complete (pos 0) resting utc_only annotated annotated_scope
      annotated-read resting-HasDefaults
