-- ===== src/Values/ScopeScaling.antt =====
-- internal/pkg/values/scope.go: the scaling that one scope asks for, and the check for incompatible
-- fields; internal/pkg/values/scalingValue.go: the value that selected it.
pub mod Meaning
use go_kube_downscaler.Prelude.{
  Bool, true, false, ◌&&◌, ◌||◌, List, [], ◌++◌, Option, none, some, if◌then◌else◌, is_some, ℤ,
}
use go_kube_downscaler.Fault.{Result, ok, err, incompatible_fields}
use go_kube_downscaler.Values.{
  TimeSpan, TimeSpans, Scope, Scopes, Scaling, scaling_none, scaling_ignore, scaling_down,
  scaling_up, scaling_multiple, scaling_incomplete, ScalingValue,
}
use go_kube_downscaler.Values.Span.{in_time_spans}

-- `CheckForIncompatibleFields`.
unfoldable pub check_for_incompatible_fields : Scope → Result (Unit {0})
check_for_incompatible_fields s =
    if is_some s.up_time && is_some s.down_time
    then err incompatible_fields
    else if (is_some s.up_time || is_some s.down_time)
        && (is_some s.upscale_period || is_some s.downscale_period)
    then err incompatible_fields
    else ok tt

abbrev pub choose : Scaling → Scaling → Result Bool → Scaling
choose inside outside (err _) = scaling_incomplete
choose inside outside (ok true) = inside
choose inside outside (ok false) = outside

-- Downtime and uptime periods together; the error of the first is looked at first.
unfoldable pub merge : Scaling → Result Bool → Result Bool → Scaling
merge neither (err _) up = scaling_incomplete
merge neither (ok down) (err _) = scaling_incomplete
merge neither (ok down) (ok up) =
    if up && down
    then scaling_multiple
    else if down
    then scaling_down
    else if up
    then scaling_up
    else neither

unfoldable pub get_scaling_from_periods : ℤ → Scopes → Scope → Scaling
unfolding merge
get_scaling_from_periods now scopes s =
    merge scaling_ignore (in_time_spans now scopes s.downscale_period)
      (in_time_spans now scopes s.upscale_period)

-- `Scope.getCurrentScaling`.
unfoldable pub get_scope_scaling : ℤ → Scopes → Scope → Scaling
unfolding get_scaling_from_periods
get_scope_scaling now scopes s =
    if is_some s.down_time
    then choose scaling_down scaling_up (in_time_spans now scopes s.down_time)
    else if is_some s.up_time
    then choose scaling_up scaling_down (in_time_spans now scopes s.up_time)
    else if is_some s.downscale_period || is_some s.upscale_period
    then get_scaling_from_periods now scopes s
    else scaling_none

unfoldable pub get_force_scaling : ℤ → Scopes → Scope → Scaling
unfolding merge
get_force_scaling now scopes s =
    merge
      (if is_some s.force_downtime || is_some s.force_uptime then scaling_ignore else scaling_none)
      (in_time_spans now scopes s.force_downtime) (in_time_spans now scopes s.force_uptime)

abbrev elements : TimeSpans → List TimeSpan
elements none = []
elements (some spans) = spans

-- `forceScalingValue` and `scalingValue`, by `scalingValueFromTimeSpans`.
unfoldable pub force_scaling_value : Scope → ScalingValue
force_scaling_value s = record {
  time_spans = elements s.force_downtime ++ elements s.force_uptime;
  bool = none;
}

unfoldable pub scaling_value : Scope → ScalingValue
scaling_value s =
    if is_some s.down_time
    then record { time_spans = elements s.down_time; bool = none }
    else if is_some s.up_time
    then record { time_spans = elements s.up_time; bool = none }
    else record {
      time_spans = elements s.downscale_period ++ elements s.upscale_period;
      bool = none;
    }
