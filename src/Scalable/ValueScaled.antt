-- ===== src/Scalable/ValueScaled.antt =====
-- internal/pkg/scalable/valueScaledWorkloads.go: workloads that are scaled by the value of a field.
pub mod RoundTrip
use go_kube_downscaler.Prelude.{Bool, true, false, Option, none, some, if◌then◌else◌}
use go_kube_downscaler.Fault.{Fault, Result, ok, err, ◌>>=◌}
use go_kube_downscaler.Replicas.{Replicas}
use go_kube_downscaler.Metrics.{SavedResources, no_saved_resources}
use go_kube_downscaler.Scalable.{
  ScalableResource, ScalingSummary, no_summary, replicas_eq, set_original_replicas,
  get_original_replicas, remove_original_replicas, is_original_replicas_unset,
}

-- The interface `valueScaledResource`. `get_value` gives the value and the one to scale down to.
pub record ValueScaledResource (R : Type 0) : Type 0 where
  pub base : ScalableResource R
  pub set_value : Replicas → R → Result R
  pub get_value : R → Result (Replicas × Replicas)
  pub get_saved_resources_requests : R → SavedResources

abbrev pub change : SavedResources → Bool → Replicas → Replicas → ScalingSummary
change saved update current target = record no_summary {
  saved_resources = some saved;
  is_update_needed = update;
  from = some current;
  to = some target;
}

module _ {R : Type 0} (ops : ValueScaledResource R) where
  open ops use {base, set_value, get_value, get_saved_resources_requests}

  unfoldable pub restore : R → Replicas → Result Replicas → Result (R × ScalingSummary)
  restore w current (err e) = if is_original_replicas_unset e then ok (w, no_summary) else err e
  restore w current (ok original) = do
    w' ← set_value original w
    ok (
      remove_original_replicas base w',
      record no_summary { is_update_needed = true; from = some current; to = some original },
    )

  -- `ScaleUp`.
  unfoldable pub scale_up : R → Result (R × ScalingSummary)
  unfolding restore
  scale_up w = do states ← get_value w; restore w states.0 (get_original_replicas base w)

  -- The workload has the target's value already.
  unfoldable pub stay : R → Replicas → Replicas → Result Replicas → Result (R × ScalingSummary)
  stay w current target (err e) =
      if is_original_replicas_unset e
      then ok (w, change no_saved_resources false current target)
      else err e
  stay w current target (ok original) = ok (w, change no_saved_resources false current target)

  unfoldable pub lower_to : R → Replicas → Replicas → Result (R × ScalingSummary)
  lower_to w current target = do
    w' ← set_value target w
    ok (
      set_original_replicas base current w',
      change (get_saved_resources_requests w) true current target,
    )

  unfoldable pub stay_or_lower : R → Replicas → Replicas → Result (R × ScalingSummary)
  unfolding stay lower_to
  stay_or_lower w current target =
      if replicas_eq current target
      then stay w current target (get_original_replicas base w)
      else lower_to w current target

  -- `ScaleDown`, which does not read the replicas to scale down to.
  unfoldable pub scale_down : Replicas → R → Result (R × ScalingSummary)
  unfolding stay_or_lower
  scale_down downscale_replicas w = do states ← get_value w; stay_or_lower w states.0 states.1
