-- ===== src/Scalable/Resources.antt =====
-- internal/pkg/scalable: the resource kinds that the ways of scaling are used for, one child each.
--
-- A resource is the record of the fields that its methods read or write; the other fields of the
-- Kubernetes object take no part. `AsApproximateFloat64` of a container's requests is the amount
-- itself, in the units of SavedResources.
pub mod Deployments
pub mod HorizontalPodAutoscalers
pub mod ScaledObjects
pub mod Jobs
pub mod Services
pub mod Ingresses
pub mod DaemonSets
pub mod PodDisruptionBudgets
pub mod Gateways
pub mod AutoscalingRunnerSets
pub mod Counted
pub mod CronJobs
pub mod BroadcastJobs
pub mod ImagePullJobs
pub mod AdvancedCronJobs
pub mod Kafka
pub mod Postgresqls
use go_kube_downscaler.Prelude.{List, [], ◌∷◌, Option, none, some, ℤ, ◌+ℤ◌, ◌*ℤ◌}
use go_kube_downscaler.Fault.{Result, ok, err, no_replicas}
use go_kube_downscaler.Replicas.{Replicas, absolute}
use go_kube_downscaler.Metrics.{SavedResources, no_saved_resources}

-- `requests` is `none` where `Resources.Requests` is nil.
pub record Container : Type 0 where
  pub requests : Option SavedResources

unfoldable pub add_requests : Option SavedResources → SavedResources → SavedResources
add_requests none total = total
add_requests (some r) total = record {
  total_saved_cpu = total.total_saved_cpu +ℤ r.total_saved_cpu;
  total_saved_memory = total.total_saved_memory +ℤ r.total_saved_memory;
}

-- The loop over the containers that sums their requests.
unfoldable pub total_requests : List Container → SavedResources
unfolding add_requests
total_requests [] = no_saved_resources
total_requests (c ∷ cs) = add_requests c.requests (total_requests cs)

abbrev pub times : ℤ → SavedResources → SavedResources
times n r = record {
  total_saved_cpu = r.total_saved_cpu *ℤ n;
  total_saved_memory = r.total_saved_memory *ℤ n;
}

-- The replicas of a field `Spec.Replicas *int32`.
unfoldable pub replicas_of_field : Option ℤ → Result Replicas
replicas_of_field none = err no_replicas
replicas_of_field (some n) = ok (absolute n)
