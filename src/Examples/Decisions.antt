-- ===== src/Examples/Decisions.antt =====
-- The theorems on scopes and timespans, at concrete scopes.
use go_kube_downscaler.Prelude.{
  ◌*◌, ◌≡◌, ◌≢◌, ◌↔◌, ◌⊎◌, true, false, ◌&&◌, is_some, refl, [], ◌∷◌, none, some, ltb, leb, ℤ, pos,
  arith,
}
use go_kube_downscaler.Fault.{ok}
use go_kube_downscaler.Time.{second, weekday}
use go_kube_downscaler.Values.{
  Scope, scope_workload, scope_namespace, scaling_down, scaling_up, boolean_span,
}
use go_kube_downscaler.Values.Defaults.{FilledTimeSpan}
use go_kube_downscaler.Values.Decision.{decided, get_current_scaling}
use go_kube_downscaler.Values.ScopeScaling.{check_for_incompatible_fields, get_scope_scaling}
use go_kube_downscaler.Values.ScopeScaling.Meaning.{In, Out, get_scope_scaling_iff}
use go_kube_downscaler.Values.Span.{in_time_spans, is_in_filled, extract_day_time}
use go_kube_downscaler.Values.Span.Cyclic.{ahead, is_in_filled-ahead}
use go_kube_downscaler.Values.Span.Membership.{Answer, in_time_spans_iff}
use go_kube_downscaler.Values.Query.{get_excluded_with_scope, matched_by}
use go_kube_downscaler.Values.Priority.Decided.{Decides, get_current_scaling_iff}
use go_kube_downscaler.Values.Priority.Exclusion.{Excludes, get_excluded_with_scope_iff}
use go_kube_downscaler.Examples.{utc, never, empty_scope, resting, working, sheltered}

get_current_scaling_iff_example :
    (get_current_scaling (pos 0) working
      ≡ decided scope_workload scaling_up
          (record { time_spans = boolean_span true ∷ []; bool = none }))
    ↔ Decides (pos 0) working (
        decided scope_workload scaling_up
          (record { time_spans = boolean_span true ∷ []; bool = none }))
get_current_scaling_iff_example = get_current_scaling_iff (pos 0) working (
    decided scope_workload scaling_up (record { time_spans = boolean_span true ∷ []; bool = none }))

get_excluded_with_scope_iff_example :
    (get_excluded_with_scope (pos 5) sheltered sheltered ≡ matched_by scope_namespace)
    ↔ Excludes (pos 5) sheltered scope_namespace
get_excluded_with_scope_iff_example = get_excluded_with_scope_iff (pos 5) sheltered scope_namespace

abbrev night_rest : Scope
night_rest = record empty_scope { up_time = never }

night_rest-compatible : check_for_incompatible_fields night_rest ≡ ok tt
unfolding check_for_incompatible_fields
night_rest-compatible = refl

get_scope_scaling_iff_example :
    ((get_scope_scaling (pos 0) resting night_rest ≡ scaling_down) ↔ (
      In (pos 0) resting none
      ⊎ ((is_some never ≡ true) × Out (pos 0) resting never)
      ⊎ (In (pos 0) resting none × Out (pos 0) resting none)))
    × ((get_scope_scaling (pos 0) resting night_rest ≡ scaling_up) ↔ (
        In (pos 0) resting never
        ⊎ ((false ≡ true) × Out (pos 0) resting none)
        ⊎ (In (pos 0) resting none × Out (pos 0) resting none)))
get_scope_scaling_iff_example =
    get_scope_scaling_iff (pos 0) resting night_rest night_rest-compatible

-- Friday 22:00 to Monday 06:00, on a Saturday at noon.
abbrev weekend : FilledTimeSpan
weekend = record {
  timezone = utc;
  weekday_from = 5;
  weekday_to = 1;
  time_from = 1320;
  time_to = 360;
}

abbrev saturday_noon : ℤ
saturday_noon = pos (216000 * second)

is_in_filled-ahead_example : is_in_filled saturday_noon weekend ≡ (
    ltb (ahead 1440 1320 (extract_day_time utc saturday_noon)) (ahead 1440 1320 360)
    && leb (ahead 7 5 (weekday utc saturday_noon)) (ahead 7 5 1))
is_in_filled-ahead_example =
    is_in_filled-ahead saturday_noon weekend (omega arith) (omega arith) (omega arith) (omega arith)

yes_not_no : ok true ≢ ok false
yes_not_no h = cc h

in_time_spans_iff_example :
    (in_time_spans (pos 0) resting (some (boolean_span false ∷ boolean_span true ∷ [])) ≡ ok true)
    ↔ Answer (pos 0) resting (boolean_span false ∷ boolean_span true ∷ []) (ok true)
in_time_spans_iff_example =
    in_time_spans_iff (pos 0) resting (boolean_span false ∷ boolean_span true ∷ []) (ok true)
      yes_not_no
