-- ===== src/Scalable/Resources/Jobs.antt =====
-- internal/pkg/scalable/jobs.go
use go_kube_downscaler.Prelude.{refl, Bool, true, false, List, Option, none, some, ℤ, pos}
use go_kube_downscaler.Text.{Text}
use go_kube_downscaler.Dict.{Dict}
use go_kube_downscaler.Replicas.{Replicas, boolean}
use go_kube_downscaler.Metrics.{SavedResources}
use go_kube_downscaler.Scalable.{ScalableResource}
use go_kube_downscaler.Scalable.SuspendScaled.{SuspendScaledResource}
use go_kube_downscaler.Scalable.SuspendScaled.RoundTrip.{SuspendLaws}
use go_kube_downscaler.Scalable.Resources.{Container, total_requests, times}

pub record Job : Type 0 where
  pub annotations : Dict Text
  pub suspend : Option Bool
  pub parallelism : Option ℤ
  pub containers : List Container

abbrev pub base : ScalableResource Job
base = record {
  get_annotations = λ j. j.annotations;
  set_annotations = λ a j. record j { annotations = a };
}

unfoldable pub suspend_or_false : Option Bool → Bool
suspend_or_false none = false
suspend_or_false (some b) = b

unfoldable pub get_suspend : Job → Replicas × Replicas
unfolding suspend_or_false
get_suspend j = (boolean (suspend_or_false j.suspend), boolean true)

unfoldable pub set_suspend : Bool → Job → Job
set_suspend suspend j = record j { suspend = some suspend }

-- `derefInt32`.
unfoldable pub deref_int32 : Option ℤ → ℤ → ℤ
deref_int32 none default_value = default_value
deref_int32 (some n) default_value = n

unfoldable pub get_saved_resources_requests : Job → SavedResources
unfolding deref_int32
get_saved_resources_requests j =
    times (deref_int32 j.parallelism (pos 1)) (total_requests j.containers)

abbrev pub job : SuspendScaledResource Job
job = record {
  base = base;
  get_suspend = get_suspend;
  set_suspend = set_suspend;
  get_saved_resources_requests = get_saved_resources_requests;
}

pub job_laws : SuspendLaws job
unfolding get_suspend set_suspend suspend_or_false
job_laws = record {
  annotations = record { get_set = λ a w. refl };
  state = λ w. (suspend_or_false w.suspend, refl);
  get_set = λ b w. refl;
  get_frame = λ a w. refl;
  set_frame = λ b w. refl;
}
