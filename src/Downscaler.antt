-- ===== src/Downscaler.antt =====
-- cmd/kubedownscaler/main.go: a scan of one workload, from its scopes to the scaling and its
-- retries.
--
-- The lines of the log and the events are left out. `err.Error()` is searched for the API's message
-- of a conflict: the fixed text of the errors does not hold that message, so the search is one in
-- the text that an error takes from outside.
pub mod Accepted
pub mod Metering
pub mod Accounting
pub mod Calls
pub mod Progress
pub mod Scan
pub mod Namespaces
pub mod Round
pub mod RoundTrip
use go_kube_downscaler.Prelude.{
  ℕ, zero, suc, Bool, true, false, ◌&&◌, Option, none, some, String, ℤ, pos, pos_part, ◌+ℤ◌,
  if◌then◌else◌, List, [], not,
}
use go_kube_downscaler.Fault.{
  Fault, Result, ok, err, quoted, scaling_invalid, max_retries_exceeded, namespace_scope_retrieve,
}
use go_kube_downscaler.Text.{Text, codes, contains}
use go_kube_downscaler.Dict.{Dict, lookup}
use go_kube_downscaler.Replicas.{Replicas}
use go_kube_downscaler.Metrics.{
  SavedResources, Holder, increment_downscaled, increment_upscaled, increment_excluded,
  increment_invalid_scaling_value_errors, increment_conflict_errors, increment_generic_errors,
  increment_parsing_workload_scope_errors, increment_saved_resources,
}
use go_kube_downscaler.Values.{
  Scope, Scopes, ScopeId, Scaling, scaling_none, scaling_ignore, scaling_down, scaling_up,
  scaling_multiple, scaling_incomplete, ScalingDecision, ScalingValue, ScopeEvaluation,
}
use go_kube_downscaler.Values.Query.{
  get_downscale_replicas, get_upscale_excluded, get_scale_children, get_excluded_with_scope,
  is_in_grace_period,
}
use go_kube_downscaler.Values.Decision.{get_current_scaling}
use go_kube_downscaler.Workload.{Workload, Api, Session, downscale_workload, upscale_workload}

-- `registry.OptimisticLockErrorMsg` of k8s.io/apiserver.
abbrev pub optimistic_lock_error_msg : Text
optimistic_lock_error_msg =
    codes
      "the object has been modified; please apply your changes to the latest version and try again"

unfoldable pub is_conflict : Fault → Bool
unfolding contains
is_conflict e = contains (quoted e) optimistic_lock_error_msg

-- The part of `runtimeConfiguration` that a scan reads.
pub record Configuration : Type 0 where
  pub max_retries_on_conflict : ℤ
  pub time_annotation : String
  pub dry_run : Bool

-- `errors.As(err, &scalingInvalidErr)`.
unfoldable pub is_scaling_invalid : Fault → Bool
is_scaling_invalid scaling_invalid = true
is_scaling_invalid _ = false

-- `recordScalingError`.
unfoldable pub record_scaling_error : Fault → Holder → Holder
record_scaling_error e m =
    if is_scaling_invalid e
    then increment_invalid_scaling_value_errors m
    else increment_generic_errors m

-- A pointer that every `ScaleDown` sets where it returns no error.
unfoldable pub increment_saved : Option SavedResources → Holder → Holder
increment_saved none m = m
increment_saved (some saved) m = increment_saved_resources saved m

-- `getCurrentScaling`.
unfoldable pub current_scaling : ℤ → Bool → Bool → ScopeId → Scopes → ScalingDecision
current_scaling now excluded upscale_on_exclusion upscale_scope scopes =
    if upscale_on_exclusion && excluded
    then record {
      scaling = scaling_up;
      scope = upscale_scope;
      value = record { time_spans = []; bool = some true };
      reason = "upscaleOnExclusion";
    }
    else get_current_scaling now scopes

module _ {R C : Type 0} (kind : Workload R) (api : Api R C) (config : Configuration) where
  -- A Go function that returns an `error`, `none` being nil.
  abbrev pub Outcome : Type 0
  Outcome = Session R C × Option Fault

  abbrev pub metered : (Holder → Holder) → Session R C → Session R C
  metered count s = record s { metrics = count s.metrics }

  unfoldable pub downscaled : Session R C × Result (Option SavedResources) → Outcome
  downscaled (s, err e) = (s, some e)
  downscaled (s, ok saved) = (metered (λ m. increment_saved saved (increment_downscaled m)) s, none)

  unfoldable pub downscale_to : Result Replicas → Session R C → Outcome
  unfolding downscaled
  downscale_to (err e) s = (s, some e)
  downscale_to (ok replicas) s = downscaled (downscale_workload kind api config.dry_run replicas s)

  unfoldable pub upscaled : Session R C × Result (Unit {0}) → Outcome
  upscaled (s, err e) = (s, some e)
  upscaled (s, ok u) = (metered increment_upscaled s, none)

  -- `scaleWorkload`.
  unfoldable pub scale_workload : Scaling → Scopes → Session R C → Outcome
  unfolding downscale_to upscaled
  scale_workload scaling_none scopes s = (metered increment_excluded s, none)
  scale_workload scaling_ignore scopes s = (metered increment_excluded s, none)
  scale_workload scaling_incomplete scopes s = (metered increment_excluded s, none)
  scale_workload scaling_multiple scopes s = (s, some scaling_invalid)
  scale_workload scaling_down scopes s = downscale_to (get_downscale_replicas scopes) s
  scale_workload scaling_up scopes s = upscaled (upscale_workload kind api config.dry_run s)

  abbrev pub regotten : C × Result R → Session R C → (Session R C → Outcome) → Outcome
  regotten (c, err e) s next = (record s { cluster = c }, some e)
  regotten (c, ok w) s next = next (record s { workload = w; cluster = c })

  -- The body of the loop: `next` is what the later iterations do.
  unfoldable pub after_attempt : Outcome → (Session R C → Outcome) → Outcome
  after_attempt (s, none) next = (s, none)
  after_attempt (s, some e) next =
      if not (is_conflict e)
      then (metered (record_scaling_error e) s, some e)
      else regotten (api.reget s.workload s.cluster) s next

  unfoldable pub attempts : ℕ → Scaling → Scopes → Session R C → Outcome
  unfolding after_attempt
  attempts zero wanted scopes s = (metered increment_conflict_errors s, some max_retries_exceeded)
  attempts (suc n) wanted scopes s =
      after_attempt (scale_workload wanted scopes s) (attempts n wanted scopes)

  -- `attemptScaling`. A loop over the range of a negative number does not run.
  unfoldable pub attempt_scaling : ScalingDecision → Scopes → Session R C → Outcome
  unfolding attempts
  attempt_scaling decision scopes s =
      attempts (pos_part (config.max_retries_on_conflict +ℤ pos 1)) decision.scaling scopes s
