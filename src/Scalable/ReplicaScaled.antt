-- ===== src/Scalable/ReplicaScaled.antt =====
-- internal/pkg/scalable/replicaScaledWorkloads.go: workloads that are scaled by a replica count.
pub mod Laws
pub mod Lowering
pub mod RoundTrip
pub mod Twice
use go_kube_downscaler.Prelude.{
  Bool, true, false, ◌&&◌, not, Option, none, some, if◌then◌else◌, ℤ, pos, ◌-ℤ◌, wrap32, leb_ℤ,
  eqb_ℤ,
}
use go_kube_downscaler.Fault.{Fault, Result, ok, err, ◌>>=◌}
use go_kube_downscaler.Replicas.{Replicas, as_int32, undefined}
use go_kube_downscaler.Metrics.{SavedResources, no_saved_resources}
use go_kube_downscaler.Scalable.{
  ScalableResource, ScalingSummary, no_summary, set_original_replicas, get_original_replicas,
  remove_original_replicas, is_original_replicas_unset,
}

-- The interface `replicaScaledResource`, as far as scaling uses it.
pub record ReplicaScaledResource (R : Type 0) : Type 0 where
  pub base : ScalableResource R
  pub set_replicas : ℤ → R → Result R
  pub get_replicas : R → Result Replicas
  pub get_saved_resources_requests : ℤ → R → SavedResources

-- `getOriginalReplicasInt32`: `none` if the original replicas are not set.
abbrev pub int32_of : Result Replicas → Result (Option ℤ)
int32_of (ok original) = as_int32 original >>= λ n. ok (some n)
int32_of (err e) = if is_original_replicas_unset e then ok none else err e

module _ {R : Type 0} (ops : ReplicaScaledResource R) where
  open ops use {base, set_replicas, get_replicas, get_saved_resources_requests}

  unfoldable pub restore : R → Replicas → Result Replicas → Result (R × ScalingSummary)
  restore w current (err e) = if is_original_replicas_unset e then ok (w, no_summary) else err e
  restore w current (ok original) = do
    n ← as_int32 original
    w' ← set_replicas n w
    ok (
      remove_original_replicas base w',
      record no_summary { is_update_needed = true; from = some current; to = some original },
    )

  -- `ScaleUp`.
  unfoldable pub scale_up : R → Result (R × ScalingSummary)
  unfolding restore
  scale_up w = do current ← get_replicas w; restore w current (get_original_replicas base w)

  abbrev pub down_summary : SavedResources → Bool → Replicas → Replicas → ScalingSummary
  down_summary saved update current target = record no_summary {
    saved_resources = some saved;
    is_update_needed = update;
    from = some current;
    to = some target;
  }

  -- The workload is at or below the target: it is left alone, and what it saves is reported if it
  -- was scaled down before.
  unfoldable pub stay : R → Replicas → Replicas → ℤ → Option ℤ → R × ScalingSummary
  stay w current target target_n none = (w, down_summary no_saved_resources false current target)
  stay w current target target_n (some original) = (
    w,
    down_summary (get_saved_resources_requests (wrap32 (original -ℤ target_n)) w) false current
        target,
  )

  unfoldable pub lower_to : R → Replicas → Replicas → ℤ → ℤ → Result (R × ScalingSummary)
  lower_to w current target current_n target_n = do
    w' ← set_replicas target_n w
    ok (
      set_original_replicas base current w',
      down_summary (get_saved_resources_requests (wrap32 (current_n -ℤ target_n)) w') true current
          target,
    )

  abbrev pub is_at_target : ℤ → ℤ → Bool
  is_at_target current_n target_n = not (eqb_ℤ current_n undefined) && leb_ℤ current_n target_n

  unfoldable pub stay_or_lower : R → Replicas → ℤ → Replicas → ℤ → Result (R × ScalingSummary)
  unfolding stay lower_to
  stay_or_lower w target target_n current current_n =
      if is_at_target current_n target_n
      then int32_of (get_original_replicas base w)
        >>= (λ original. ok (stay w current target target_n original))
      else lower_to w current target current_n target_n

  -- `ScaleDown`.
  unfoldable pub scale_down : Replicas → R → Result (R × ScalingSummary)
  scale_down target w = do
    target_n ← as_int32 target
    current ← get_replicas w
    current_n ← as_int32 current
    stay_or_lower w target target_n current current_n
