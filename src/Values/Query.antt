-- ===== src/Values/Query.antt =====
-- The other questions that internal/pkg/values/scope.go asks the scopes: the replicas to scale down
-- to, the children, the exclusion and the grace period.
use go_kube_downscaler.Prelude.{
  Bool, true, false, String, Option, none, some, if◌then◌else◌, is_some, ℤ, ◌+ℤ◌, ltb_ℤ, eqb_ℤ,
}
use go_kube_downscaler.Fault.{Result, ok, err, value_not_set}
use go_kube_downscaler.Text.{Text}
use go_kube_downscaler.Dict.{Dict, lookup}
use go_kube_downscaler.Replicas.{Replicas}
use go_kube_downscaler.Time.{parse_rfc3339}
use go_kube_downscaler.Values.{
  TriStateBool, Scope, ScopeId, scope_none, Scopes, ranged, first_of, undefined_duration,
  ScopeEvaluation,
}
use go_kube_downscaler.Values.Span.{in_time_spans}

abbrev pub or_not_set : Option (ScopeId × Replicas) → Result Replicas
or_not_set none = err value_not_set
or_not_set (some (i, r)) = ok r

unfoldable pub get_downscale_replicas : Scopes → Result Replicas
unfolding first_of
get_downscale_replicas s = or_not_set (first_of (λ scope. scope.downscale_replicas) (ranged s))

abbrev set_value : TriStateBool → Option Bool
set_value t = if t.is_set then some t.value else none

abbrev or_false : Option (ScopeId × Bool) → Bool × ScopeId
or_false none = (false, scope_none)
or_false (some (i, b)) = (b, i)

unfoldable pub get_scale_children : Scopes → Bool
unfolding first_of
get_scale_children s = (or_false (first_of (λ scope. set_value scope.scale_children) (ranged s))).0

unfoldable pub get_upscale_excluded : Scopes → Bool × ScopeId
unfolding first_of
get_upscale_excluded s = or_false (first_of (λ scope. set_value scope.upscale_excluded) (ranged s))

abbrev pub not_matched : ScopeEvaluation
not_matched = record { matched = false; scope = scope_none }

abbrev pub matched_by : ScopeId → ScopeEvaluation
matched_by i = record { matched = true; scope = i }

-- The first loop stops at the first scope that has an exclusion, and its timespans are looked at.
unfoldable pub exclusion : ℤ → Scopes → Scope → Option (Result Bool)
exclusion now scopes scope =
    if is_some scope.exclude then some (in_time_spans now scopes scope.exclude) else none

abbrev pub after_now : ℤ → Option ℤ → Option (Unit {0})
after_now now none = none
after_now now (some until) = if ltb_ℤ now until then some tt else none

-- The second loop passes over expired instants too.
unfoldable pub exclusion_until : ℤ → Scope → Option (Unit {0})
exclusion_until now scope = after_now now scope.exclude_until

abbrev pub by_instant : Option (ScopeId × Unit {0}) → ScopeEvaluation
by_instant none = not_matched
by_instant (some (i, u)) = matched_by i

abbrev pub by_spans : Option (ScopeId × Result Bool) → ScopeEvaluation → ScopeEvaluation
by_spans none second = second
by_spans (some (i, err e)) second = not_matched
by_spans (some (i, ok true)) second = matched_by i
by_spans (some (i, ok false)) second = second

-- `s.GetExcludedWithScope(scopes)`; the callers pass the same scopes twice.
unfoldable pub get_excluded_with_scope : ℤ → Scopes → Scopes → ScopeEvaluation
unfolding first_of
get_excluded_with_scope now s scopes =
    by_spans (first_of (exclusion now scopes) (ranged s))
      (by_instant (first_of (exclusion_until now) (ranged s)))

unfoldable pub get_excluded : ℤ → Scopes → Scopes → Bool
unfolding get_excluded_with_scope
get_excluded now s scopes = (get_excluded_with_scope now s scopes).matched

-- `getWorkloadCreationTime`.
abbrev creation_of : ℤ → Option Text → Result ℤ
creation_of creation_time none = ok creation_time
creation_of creation_time (some time_string) = parse_rfc3339 time_string

unfoldable pub get_workload_creation_time : String → Dict Text → ℤ → Result ℤ
get_workload_creation_time annotation annotations creation_time =
    creation_of creation_time (lookup annotation annotations)

abbrev set_grace_period : Scope → Option ℤ
set_grace_period scope =
    if eqb_ℤ scope.grace_period undefined_duration then none else some scope.grace_period

abbrev grace_evaluation : ℤ → Result ℤ → Option (ScopeId × ℤ) → Result ScopeEvaluation
grace_evaluation now created none = ok not_matched
grace_evaluation now (err e) (some (i, grace)) = err e
grace_evaluation now (ok created) (some (i, grace)) =
    ok (record { matched = ltb_ℤ now (created +ℤ grace); scope = i })

-- `IsInGracePeriod`. The evaluation beside an error is not read by the caller.
unfoldable pub is_in_grace_period : ℤ → String → Dict Text → ℤ → Scopes → Result ScopeEvaluation
unfolding first_of
is_in_grace_period now time_annotation annotations creation_time s =
    grace_evaluation now (get_workload_creation_time time_annotation annotations creation_time)
      (first_of set_grace_period (ranged s))
