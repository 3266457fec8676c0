-- ===== src/Scalable/Resources/AutoscalingRunnerSets.antt =====
-- internal/pkg/scalable/autoscalingrunnersets.go
use go_kube_downscaler.Prelude.{
  refl, ap, sym, Bool, false, String, List, Option, none, some, ℤ, IsInt32, wrap32, wrap32-IsInt32,
}
use go_kube_downscaler.Fault.{Result, ok, err, ok-injective, no_replicas}
use go_kube_downscaler.Text.{Text}
use go_kube_downscaler.Dict.{Dict, lookup}
use go_kube_downscaler.Replicas.{Replicas, absolute}
use go_kube_downscaler.Metrics.{SavedResources}
use go_kube_downscaler.Scalable.{ScalableResource}
use go_kube_downscaler.Scalable.ReplicaScaled.{ReplicaScaledResource}
use go_kube_downscaler.Scalable.ReplicaScaled.Laws.{ReplicaLaws}
use go_kube_downscaler.Scalable.Resources.{Container, total_requests, times}

-- `min_runners` is an int, which is read as an int32.
pub record AutoscalingRunnerSet : Type 0 where
  pub annotations : Dict Text
  pub min_runners : Option ℤ
  pub containers : List Container

abbrev pub base : ScalableResource AutoscalingRunnerSet
base = record {
  get_annotations = λ a. a.annotations;
  set_annotations = λ m a. record a { annotations = m };
}

unfoldable pub set_replicas : ℤ → AutoscalingRunnerSet → Result AutoscalingRunnerSet
set_replicas n a = ok (record a { min_runners = some n })

unfoldable pub runners : Option ℤ → Result Replicas
runners none = err no_replicas
runners (some n) = ok (absolute (wrap32 n))

unfoldable pub get_replicas : AutoscalingRunnerSet → Result Replicas
unfolding runners
get_replicas a = runners a.min_runners

unfoldable pub get_saved_resources_requests : ℤ → AutoscalingRunnerSet → SavedResources
unfolding total_requests
get_saved_resources_requests diff_replicas a = times diff_replicas (total_requests a.containers)

abbrev pub autoscaling_runner_set : ReplicaScaledResource AutoscalingRunnerSet
autoscaling_runner_set = record {
  base = base;
  set_replicas = set_replicas;
  get_replicas = get_replicas;
  get_saved_resources_requests = get_saved_resources_requests;
}

abbrev pub owns_nothing : String → Bool
owns_nothing k = false

abbrev pub Fits : AutoscalingRunnerSet → ℤ → Type 0
Fits a n = IsInt32 n

-- A runner set keeps what is asked of a resource with a count, for every count that is an int32:
-- the conversions to an int and back keep it, and no annotation is touched.
pub autoscaling_runner_set_laws : ReplicaLaws autoscaling_runner_set Fits owns_nothing
unfolding set_replicas get_replicas runners
autoscaling_runner_set_laws = record {
  annotations = record { get_set = λ a w. refl };
  not_original = refl;
  get_frame = λ a w h. refl;
  get_set = λ n w h.
      (record w { min_runners = some n }, refl, ap (λ c. ok (absolute c)) (wrap32-IsInt32 n h));
  get_ok = λ n w w' i e. (absolute (wrap32 n), ap get_replicas (sym (ok-injective e)));
  set_frame = λ n w w' k e o.
      ap (λ (a : AutoscalingRunnerSet). lookup k a.annotations) (sym (ok-injective e));
  hold_set = λ n c w w' e h. h;
  hold_annotations = λ a w c h. h;
}
