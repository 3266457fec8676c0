-- ===== src/Scalable/Resources/BroadcastJobs.antt =====
-- internal/pkg/scalable/broadcastjobs.go
--
-- `GetScaledValueFromIntOrPercent` of the package intstr is a parameter.
use go_kube_downscaler.Prelude.{
  refl, Bool, true, ◌||◌, List, Option, none, some, ℤ, pos, if◌then◌else◌, leb_ℤ, ltb_ℤ, wrap32,
}
use go_kube_downscaler.Fault.{Result, ok, err}
use go_kube_downscaler.Text.{Text}
use go_kube_downscaler.Dict.{Dict}
use go_kube_downscaler.Replicas.{Replicas, IntOrString, int, boolean}
use go_kube_downscaler.Metrics.{SavedResources}
use go_kube_downscaler.Scalable.{ScalableResource}
use go_kube_downscaler.Scalable.SuspendScaled.{SuspendScaledResource}
use go_kube_downscaler.Scalable.SuspendScaled.RoundTrip.{SuspendLaws}
use go_kube_downscaler.Scalable.Resources.{Container, total_requests, times}

pub record BroadcastJob : Type 0 where
  pub annotations : Dict Text
  pub paused : Bool
  pub parallelism : Option IntOrString
  pub desired : ℤ
  pub containers : List Container

abbrev pub base : ScalableResource BroadcastJob
base = record {
  get_annotations = λ b. b.annotations;
  set_annotations = λ a b. record b { annotations = a };
}

unfoldable pub get_suspend : BroadcastJob → Replicas × Replicas
get_suspend b = (boolean b.paused, boolean true)

unfoldable pub set_suspend : Bool → BroadcastJob → BroadcastJob
set_suspend suspend b = record b { paused = suspend }

abbrev pub max_int32 : ℤ
max_int32 = pos 2147483647

abbrev pub value_or_default : Option IntOrString → IntOrString → IntOrString
value_or_default none default = default
value_or_default (some v) default = v

-- The parallelism from the scaled value, which is an int.
abbrev pub bounded : ℤ → Result ℤ → ℤ
bounded desired (err e) = desired
bounded desired (ok value) =
    if ltb_ℤ value (pos 0) || ltb_ℤ max_int32 value
    then desired
    else if leb_ℤ (wrap32 value) desired
    then wrap32 value
    else desired

module _ (get_scaled_value : IntOrString → ℤ → Bool → Result ℤ) where
  -- `broadcastJobParallelism`.
  unfoldable pub broadcast_job_parallelism : Option IntOrString → ℤ → ℤ
  broadcast_job_parallelism parallelism desired =
      if leb_ℤ desired (pos 0)
      then pos 0
      else bounded desired
          (get_scaled_value (value_or_default parallelism (int max_int32)) desired true)

  unfoldable pub get_saved_resources_requests : BroadcastJob → SavedResources
  unfolding broadcast_job_parallelism
  get_saved_resources_requests b =
      times (broadcast_job_parallelism b.parallelism b.desired) (total_requests b.containers)

  abbrev pub broadcast_job : SuspendScaledResource BroadcastJob
  broadcast_job = record {
    base = base;
    get_suspend = get_suspend;
    set_suspend = set_suspend;
    get_saved_resources_requests = get_saved_resources_requests;
  }

  pub broadcast_job_laws : SuspendLaws broadcast_job
  unfolding get_suspend set_suspend
  broadcast_job_laws = record {
    annotations = record { get_set = λ a w. refl };
    state = λ w. (w.paused, refl);
    get_set = λ b w. refl;
    get_frame = λ a w. refl;
    set_frame = λ b w. refl;
  }
