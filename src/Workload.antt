-- ===== src/Workload.antt =====
-- internal/pkg/scalable/workload.go and internal/api/kubernetes/client.go: a workload as the main
-- loop sees it, and the client that scales it through the Kubernetes API.
--
-- The API is not part of this code: it is three functions on a cluster state of any type, where a
-- call may change the cluster (others may act on it too) and may fail. Copies, comparisons and log
-- lines are left out.
use go_kube_downscaler.Prelude.{Bool, Option, none, some, String, ℤ, if◌then◌else◌, not, List}
use go_kube_downscaler.Fault.{Fault, Result, ok, err}
use go_kube_downscaler.Text.{Text}
use go_kube_downscaler.Dict.{Dict}
use go_kube_downscaler.Replicas.{Replicas}
use go_kube_downscaler.Metrics.{SavedResources, no_saved_resources, Holder}
use go_kube_downscaler.Scalable.{ScalingSummary}

-- The part of the interface `Workload` that scaling uses.
pub record Workload (R : Type 0) : Type 0 where
  pub scale_up : R → Result (R × ScalingSummary)
  pub scale_down : Replicas → R → Result (R × ScalingSummary)
  pub get_annotations : R → Dict Text
  pub get_namespace : R → String
  pub get_creation_timestamp : R → ℤ

-- The calls to the API: `update` returns the error, if there is one, `reget` the object that the
-- API holds, and `get_children` the workloads that the object owns (none for most kinds).
pub record Api (R C : Type 0) : Type 0 where
  pub update : R → C → C × Option Fault
  pub reget : R → C → C × Result R
  pub get_children : R → C → C × Result (List R)

-- The workload in memory, the cluster and the metrics of the workload's namespace.
pub record Session (R C : Type 0) : Type 0 where
  pub workload : R
  pub cluster : C
  pub metrics : Holder

module _ {R C : Type 0} (kind : Workload R) (api : Api R C) (dry_run : Bool) where
  -- The end of a call of `workload.Update`, with what the client returns if it succeeds.
  abbrev pub updated {ℓ} :
      {A : Type ℓ} → R → A → C × Option Fault → Session R C → Session R C × Result A
  updated w value (c, none) s = (record s { workload = w; cluster = c }, ok value)
  updated w value (c, some e) s = (record s { workload = w; cluster = c }, err e)

  unfoldable pub store_downscaled :
      Result (R × ScalingSummary) → Session R C → Session R C × Result (Option SavedResources)
  store_downscaled (err e) s = (s, err e)
  store_downscaled (ok (w, summary)) s =
      if not summary.is_update_needed
      then (record s { workload = w }, ok summary.saved_resources)
      else if dry_run
      then (record s { workload = w }, ok (some no_saved_resources))
      else updated w summary.saved_resources (api.update w s.cluster) s

  -- `DownscaleWorkload`.
  unfoldable pub downscale_workload :
      Replicas → Session R C → Session R C × Result (Option SavedResources)
  unfolding store_downscaled
  downscale_workload replicas s = store_downscaled (kind.scale_down replicas s.workload) s

  unfoldable pub store_upscaled :
      Result (R × ScalingSummary) → Session R C → Session R C × Result (Unit {0})
  store_upscaled (err e) s = (s, err e)
  store_upscaled (ok (w, summary)) s =
      if not summary.is_update_needed
      then (record s { workload = w }, ok tt)
      else if dry_run
      then (record s { workload = w }, ok tt)
      else updated w tt (api.update w s.cluster) s

  -- `UpscaleWorkload`.
  unfoldable pub upscale_workload : Session R C → Session R C × Result (Unit {0})
  unfolding store_upscaled
  upscale_workload s = store_upscaled (kind.scale_up s.workload) s
