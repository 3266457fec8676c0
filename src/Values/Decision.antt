-- ===== src/Values/Decision.antt =====
-- `Scopes.GetCurrentScaling` of internal/pkg/values/scope.go: the decision of the first scope that
-- forces a scaling, or else of the first that sets one.
use go_kube_downscaler.Prelude.{[], Option, none, some, ℤ}
use go_kube_downscaler.Values.{
  Scope, ScopeId, scope_none, Scopes, ranged, first_of, Scaling, scaling_none, scaling_ignore,
  ScalingValue, ScalingDecision,
}
use go_kube_downscaler.Values.ScopeScaling.{
  get_scope_scaling, get_force_scaling, force_scaling_value, scaling_value,
}

-- A scope that does not set the scaling is passed over.
abbrev pub unless_none : Scaling → ScalingValue → Option (Scaling × ScalingValue)
unless_none scaling_none value = none
unless_none s value = some (s, value)

unfoldable pub forced : ℤ → Scopes → Scope → Option (Scaling × ScalingValue)
forced now scopes scope =
    unless_none (get_force_scaling now scopes scope) (force_scaling_value scope)

unfoldable pub unforced : ℤ → Scopes → Scope → Option (Scaling × ScalingValue)
unforced now scopes scope = unless_none (get_scope_scaling now scopes scope) (scaling_value scope)

abbrev pub decided : ScopeId → Scaling → ScalingValue → ScalingDecision
decided i s value = record { scaling = s; scope = i; value = value; reason = "" }

abbrev pub undecided : ScalingDecision
undecided = record {
  scaling = scaling_none;
  scope = scope_none;
  value = record { time_spans = []; bool = none };
  reason = "";
}

-- The second loop, with the decision that stands if no scope sets a scaling.
unfoldable pub or_decision :
    ScalingDecision → Option (ScopeId × (Scaling × ScalingValue)) → ScalingDecision
or_decision default none = default
or_decision default (some (i, (s, value))) = decided i s value

-- The end of the first loop: no scope forces a scaling, the first that does is inactive, or it is
-- returned.
unfoldable pub resolve :
    Option (ScopeId × (Scaling × ScalingValue))
    → Option (ScopeId × (Scaling × ScalingValue))
    → ScalingDecision
unfolding or_decision
resolve none second = or_decision undecided second
resolve (some (i, (scaling_ignore, value))) second =
    or_decision (decided i scaling_ignore value) second
resolve (some (i, (s, value))) second = decided i s value

unfoldable pub get_current_scaling : ℤ → Scopes → ScalingDecision
unfolding resolve first_of
get_current_scaling now s =
    resolve (first_of (forced now s) (ranged s)) (first_of (unforced now s) (ranged s))
