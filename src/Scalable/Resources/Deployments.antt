-- ===== src/Scalable/Resources/Deployments.antt =====
-- internal/pkg/scalable/deployments.go
use go_kube_downscaler.Prelude.{refl, ap, sym, Bool, false, List, String, Option, some, ℤ}
use go_kube_downscaler.Fault.{Result, ok, ok-injective}
use go_kube_downscaler.Text.{Text}
use go_kube_downscaler.Dict.{Dict, lookup}
use go_kube_downscaler.Replicas.{Replicas, absolute}
use go_kube_downscaler.Metrics.{SavedResources}
use go_kube_downscaler.Scalable.{ScalableResource}
use go_kube_downscaler.Scalable.ReplicaScaled.{ReplicaScaledResource}
use go_kube_downscaler.Scalable.ReplicaScaled.Laws.{ReplicaLaws}
use go_kube_downscaler.Scalable.Resources.{Container, total_requests, times, replicas_of_field}

pub record Deployment : Type 0 where
  pub annotations : Dict Text
  pub replicas : Option ℤ
  pub containers : List Container

abbrev pub base : ScalableResource Deployment
base = record {
  get_annotations = λ d. d.annotations;
  set_annotations = λ a d. record d { annotations = a };
}

unfoldable pub set_replicas : ℤ → Deployment → Result Deployment
set_replicas n d = ok (record d { replicas = some n })

unfoldable pub get_replicas : Deployment → Result Replicas
unfolding replicas_of_field
get_replicas d = replicas_of_field d.replicas

unfoldable pub get_saved_resources_requests : ℤ → Deployment → SavedResources
unfolding total_requests
get_saved_resources_requests diff_replicas d = times diff_replicas (total_requests d.containers)

abbrev pub deployment : ReplicaScaledResource Deployment
deployment = record {
  base = base;
  set_replicas = set_replicas;
  get_replicas = get_replicas;
  get_saved_resources_requests = get_saved_resources_requests;
}

abbrev pub owns_nothing : String → Bool
owns_nothing k = false

-- A deployment can hold every count, in a field of its own.
abbrev pub AnyCount : Deployment → ℤ → Type 0
AnyCount d n = Unit

pub deployment_laws : ReplicaLaws deployment AnyCount owns_nothing
unfolding set_replicas get_replicas replicas_of_field
deployment_laws = record {
  annotations = record { get_set = λ a w. refl };
  not_original = refl;
  get_frame = λ a w h. refl;
  get_set = λ n w h. (record w { replicas = some n }, refl, refl);
  get_ok = λ n w w' i e. (absolute n, ap get_replicas (sym (ok-injective e)));
  set_frame =
      λ n w w' k e o. ap (λ (d : Deployment). lookup k d.annotations) (sym (ok-injective e));
  hold_set = λ n c w w' e h. h;
  hold_annotations = λ a w c h. h;
}
