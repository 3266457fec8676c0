-- ===== src/Scalable/Resources/AdvancedCronJobs.antt =====
-- internal/pkg/scalable/advancedcronjobs.go, without its children.
use go_kube_downscaler.Prelude.{
  refl, Bool, true, List, Option, none, some, is_some, ℤ, pos, if◌then◌else◌, String,
}
use go_kube_downscaler.Fault.{Result, ok, ◌>>=◌}
use go_kube_downscaler.Text.{Text}
use go_kube_downscaler.Dict.{Dict}
use go_kube_downscaler.Replicas.{Replicas, IntOrString, boolean}
use go_kube_downscaler.Metrics.{SavedResources, no_saved_resources}
use go_kube_downscaler.Scalable.{ScalableResource}
use go_kube_downscaler.Scalable.SuspendScaled.{SuspendScaledResource}
use go_kube_downscaler.Scalable.SuspendScaled.RoundTrip.{SuspendLaws}
use go_kube_downscaler.Scalable.Resources.{Container, total_requests, times}
use go_kube_downscaler.Scalable.Resources.Jobs.{Job, suspend_or_false, deref_int32}
use go_kube_downscaler.Scalable.Resources.BroadcastJobs.{BroadcastJob, broadcast_job_parallelism}
use go_kube_downscaler.Scalable.Resources.ImagePullJobs.{ImagePullJob}

-- The template of a job, whose parallelism is of type P.
pub record JobTemplate (P : Type 0) : Type 0 where
  pub parallelism : Option P
  pub containers : List Container

-- Three pointers, nil where the job is of another kind. Nothing of the second is read.
pub record CronJobTemplate : Type 0 where
  pub broadcast_job : Option (JobTemplate IntOrString)
  pub image_list_pull_job : Bool
  pub job : Option (JobTemplate ℤ)

pub record AdvancedCronJob : Type 0 where
  pub annotations : Dict Text
  pub paused : Option Bool
  pub template : CronJobTemplate
  pub active : List String

abbrev pub base : ScalableResource AdvancedCronJob
base = record {
  get_annotations = λ c. c.annotations;
  set_annotations = λ a c. record c { annotations = a };
}

unfoldable pub get_suspend : AdvancedCronJob → Replicas × Replicas
unfolding suspend_or_false
get_suspend c = (boolean (suspend_or_false c.paused), boolean true)

unfoldable pub set_suspend : Bool → AdvancedCronJob → AdvancedCronJob
set_suspend suspend c = record c { paused = some suspend }

-- `sumContainerRequests`.
abbrev pub sum_container_requests : List Container → SavedResources
unfolding total_requests
sum_container_requests containers = total_requests containers

abbrev pub saved_by_job : Option (JobTemplate ℤ) → SavedResources
unfolding deref_int32
saved_by_job none = no_saved_resources
saved_by_job (some t) =
    times (deref_int32 t.parallelism (pos 1)) (sum_container_requests t.containers)

module _ (get_scaled_value : IntOrString → ℤ → Bool → Result ℤ) where
  abbrev pub saved_unless_broadcast :
      Option (JobTemplate IntOrString) → CronJobTemplate → SavedResources
  unfolding broadcast_job_parallelism
  saved_unless_broadcast (some t) template =
      times (broadcast_job_parallelism get_scaled_value t.parallelism (pos 1))
        (sum_container_requests t.containers)
  saved_unless_broadcast none template =
      if template.image_list_pull_job then no_saved_resources else saved_by_job template.job

  unfoldable pub get_saved_resources_requests : AdvancedCronJob → SavedResources
  unfolding broadcast_job_parallelism
  get_saved_resources_requests c = saved_unless_broadcast c.template.broadcast_job c.template

  abbrev pub advanced_cron_job : SuspendScaledResource AdvancedCronJob
  advanced_cron_job = record {
    base = base;
    get_suspend = get_suspend;
    set_suspend = set_suspend;
    get_saved_resources_requests = get_saved_resources_requests;
  }

  pub advanced_cron_job_laws : SuspendLaws advanced_cron_job
  unfolding get_suspend set_suspend suspend_or_false
  advanced_cron_job_laws = record {
    annotations = record { get_set = λ a w. refl };
    state = λ w. (suspend_or_false w.paused, refl);
    get_set = λ b w. refl;
    get_frame = λ a w. refl;
    set_frame = λ b w. refl;
  }

-- A child, by the kind of its object.
pub data Child : Type 0 where
  broadcast : BroadcastJob → Child
  image_pull : ImagePullJob → Child
  plain : Job → Child

-- `getChildWorkload`, over the calls that get an object of a kind by its name.
module _ (get_broadcast_job : String → Result BroadcastJob)
    (get_image_pull_job : String → Result ImagePullJob) (get_job : String → Result Job) where
  unfoldable pub get_child_workload : CronJobTemplate → String → Result Child
  get_child_workload template name =
      if is_some template.broadcast_job
      then get_broadcast_job name >>= (λ b. ok (broadcast b))
      else if template.image_list_pull_job
      then get_image_pull_job name >>= (λ i. ok (image_pull i))
      else get_job name >>= (λ j. ok (plain j))
