-- ===== src/Scalable/Resources/ImagePullJobs.antt =====
-- internal/pkg/scalable/imagepulljobs.go
use go_kube_downscaler.Prelude.{
  ◌≡◌, refl, ap, sym, Bool, false, String, Option, none, some, ℤ, pos, if◌then◌else◌, ltb_ℤ,
}
use go_kube_downscaler.Fault.{Result, ok, err, ok-injective}
use go_kube_downscaler.Text.{Text}
use go_kube_downscaler.Text.Decimal.{parse_int}
use go_kube_downscaler.Dict.{Dict, lookup}
use go_kube_downscaler.Replicas.{Replicas, IntOrString, int, str, absolute}
use go_kube_downscaler.Metrics.{SavedResources, no_saved_resources}
use go_kube_downscaler.Scalable.{ScalableResource}
use go_kube_downscaler.Scalable.ReplicaScaled.{ReplicaScaledResource}
use go_kube_downscaler.Scalable.ReplicaScaled.Laws.{ReplicaLaws}

pub record ImagePullJob : Type 0 where
  pub annotations : Dict Text
  pub parallelism : Option IntOrString

abbrev pub base : ScalableResource ImagePullJob
base = record {
  get_annotations = λ i. i.annotations;
  set_annotations = λ a i. record i { annotations = a };
}

abbrev pub unless_negative : ℤ → ℤ
unless_negative value = if ltb_ℤ value (pos 0) then pos 1 else value

abbrev pub parsed_or_one : Result ℤ → ℤ
parsed_or_one (err e) = pos 1
parsed_or_one (ok value) = unless_negative value

-- `imagePullJobParallelism`.
unfoldable pub image_pull_job_parallelism : Option IntOrString → ℤ
image_pull_job_parallelism none = pos 1
image_pull_job_parallelism (some (int value)) = unless_negative value
image_pull_job_parallelism (some (str text)) = parsed_or_one (parse_int 32 text)

unfoldable pub set_replicas : ℤ → ImagePullJob → Result ImagePullJob
set_replicas n i = ok (record i { parallelism = some (int n) })

unfoldable pub get_replicas : ImagePullJob → Result Replicas
unfolding image_pull_job_parallelism
get_replicas i = ok (absolute (image_pull_job_parallelism i.parallelism))

abbrev pub get_saved_resources_requests : ℤ → ImagePullJob → SavedResources
get_saved_resources_requests diff_replicas i = no_saved_resources

abbrev pub image_pull_job : ReplicaScaledResource ImagePullJob
image_pull_job = record {
  base = base;
  set_replicas = set_replicas;
  get_replicas = get_replicas;
  get_saved_resources_requests = get_saved_resources_requests;
}

abbrev pub owns_nothing : String → Bool
owns_nothing k = false

abbrev pub IsCount : ImagePullJob → ℤ → Type 0
IsCount i n = ltb_ℤ n (pos 0) ≡ false

-- A job keeps every parallelism that is not negative.
pub image_pull_job_laws : ReplicaLaws image_pull_job IsCount owns_nothing
unfolding set_replicas get_replicas image_pull_job_parallelism
image_pull_job_laws = record {
  annotations = record { get_set = λ a w. refl };
  not_original = refl;
  get_frame = λ a w h. refl;
  get_set = λ n w h. (record w { parallelism = some (int n) }, refl, rw h refl);
  get_ok = λ n w w' i e. (
    absolute (image_pull_job_parallelism (some (int n))),
    ap get_replicas (sym (ok-injective e)),
  );
  set_frame =
      λ n w w' k e o. ap (λ (i : ImagePullJob). lookup k i.annotations) (sym (ok-injective e));
  hold_set = λ n c w w' e h. h;
  hold_annotations = λ a w c h. h;
}
