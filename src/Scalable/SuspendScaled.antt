-- ===== src/Scalable/SuspendScaled.antt =====
-- internal/pkg/scalable/suspendScaledWorkloads.go: workloads that are scaled by a suspend field.
pub mod RoundTrip
use go_kube_downscaler.Prelude.{Bool, true, false, Option, none, some, if◌then◌else◌}
use go_kube_downscaler.Fault.{Fault, Result, ok, err, ◌>>=◌}
use go_kube_downscaler.Replicas.{Replicas, as_bool}
use go_kube_downscaler.Metrics.{SavedResources, no_saved_resources}
use go_kube_downscaler.Scalable.{
  ScalableResource, ScalingSummary, no_summary, replicas_eq, set_original_replicas,
  get_original_replicas, remove_original_replicas, is_original_replicas_unset,
}

-- The interface `suspendScaledResource`. `get_suspend` gives the state and the one to scale down
-- to.
pub record SuspendScaledResource (R : Type 0) : Type 0 where
  pub base : ScalableResource R
  pub get_suspend : R → Replicas × Replicas
  pub set_suspend : Bool → R → R
  pub get_saved_resources_requests : R → SavedResources

abbrev pub suspension : SavedResources → Bool → Replicas × Replicas → ScalingSummary
suspension saved update states = record no_summary {
  saved_resources = some saved;
  is_update_needed = update;
  from = some states.0;
  to = some states.1;
}

module _ {R : Type 0} (ops : SuspendScaledResource R) where
  open ops use {base, get_suspend, set_suspend, get_saved_resources_requests}

  unfoldable pub unsuspend : R → Replicas → Result Replicas → Result (R × ScalingSummary)
  unsuspend w current (err e) = if is_original_replicas_unset e then ok (w, no_summary) else err e
  unsuspend w current (ok original) = do
    suspend ← as_bool original
    ok (
      remove_original_replicas base (set_suspend suspend w),
      record no_summary { is_update_needed = true; from = some current; to = some original },
    )

  -- `ScaleUp`.
  unfoldable pub scale_up : R → Result (R × ScalingSummary)
  unfolding unsuspend
  scale_up w = unsuspend w (get_suspend w).0 (get_original_replicas base w)

  -- The workload is suspended already; what it saves is reported if it was scaled down before.
  unfoldable pub stay : R → Result Replicas → Result (R × ScalingSummary)
  stay w (err e) =
      if is_original_replicas_unset e
      then ok (w, suspension no_saved_resources false (get_suspend w))
      else err e
  stay w (ok original) = ok (w, suspension (get_saved_resources_requests w) false (get_suspend w))

  unfoldable pub suspend : R → R × ScalingSummary
  suspend w = (
    set_original_replicas base (get_suspend w).0 (set_suspend true w),
    suspension (get_saved_resources_requests (set_suspend true w)) true (get_suspend w),
  )

  -- `ScaleDown`, which does not read the replicas to scale down to.
  unfoldable pub scale_down : Replicas → R → Result (R × ScalingSummary)
  unfolding stay suspend
  scale_down target w =
      if replicas_eq (get_suspend w).0 (get_suspend w).1
      then stay w (get_original_replicas base w)
      else ok (suspend w)
