-- ===== src/Scalable/Resources/CronJobs.antt =====
-- internal/pkg/scalable/cronjobs.go, without its children.
use go_kube_downscaler.Prelude.{refl, Bool, true, List, Option, some, ℤ, pos, String}
use go_kube_downscaler.Text.{Text}
use go_kube_downscaler.Dict.{Dict}
use go_kube_downscaler.Replicas.{Replicas, boolean}
use go_kube_downscaler.Metrics.{SavedResources}
use go_kube_downscaler.Scalable.{ScalableResource}
use go_kube_downscaler.Scalable.SuspendScaled.{SuspendScaledResource}
use go_kube_downscaler.Scalable.SuspendScaled.RoundTrip.{SuspendLaws}
use go_kube_downscaler.Scalable.Resources.{Container, total_requests, times}
use go_kube_downscaler.Scalable.Resources.Jobs.{suspend_or_false, deref_int32}

-- `parallelism` and the containers are those of the job template, `active` the names of the jobs.
pub record CronJob : Type 0 where
  pub annotations : Dict Text
  pub suspend : Option Bool
  pub parallelism : Option ℤ
  pub containers : List Container
  pub active : List String

abbrev pub base : ScalableResource CronJob
base = record {
  get_annotations = λ c. c.annotations;
  set_annotations = λ a c. record c { annotations = a };
}

unfoldable pub get_suspend : CronJob → Replicas × Replicas
unfolding suspend_or_false
get_suspend c = (boolean (suspend_or_false c.suspend), boolean true)

unfoldable pub set_suspend : Bool → CronJob → CronJob
set_suspend suspend c = record c { suspend = some suspend }

unfoldable pub get_saved_resources_requests : CronJob → SavedResources
unfolding deref_int32
get_saved_resources_requests c =
    times (deref_int32 c.parallelism (pos 1)) (total_requests c.containers)

abbrev pub cron_job : SuspendScaledResource CronJob
cron_job = record {
  base = base;
  get_suspend = get_suspend;
  set_suspend = set_suspend;
  get_saved_resources_requests = get_saved_resources_requests;
}

pub cron_job_laws : SuspendLaws cron_job
unfolding get_suspend set_suspend suspend_or_false
cron_job_laws = record {
  annotations = record { get_set = λ a w. refl };
  state = λ w. (suspend_or_false w.suspend, refl);
  get_set = λ b w. refl;
  get_frame = λ a w. refl;
  set_frame = λ b w. refl;
}
