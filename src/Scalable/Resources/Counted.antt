-- ===== src/Scalable/Resources/Counted.antt =====
-- The kinds with a pod template and an optional count: internal/pkg/scalable/statefulsets.go,
-- rollouts.go, clonesets.go, prometheuses.go, stacks.go and advancedstatefulsets.go.
--
-- The files repeat the same methods on objects that keep the count in `Spec.Replicas` and the
-- containers in a template, so the kinds are one record here.
use go_kube_downscaler.Prelude.{refl, ap, sym, Bool, false, List, String, Option, some, ℤ}
use go_kube_downscaler.Fault.{Result, ok, ok-injective}
use go_kube_downscaler.Text.{Text}
use go_kube_downscaler.Dict.{Dict, lookup}
use go_kube_downscaler.Replicas.{Replicas, absolute}
use go_kube_downscaler.Metrics.{SavedResources}
use go_kube_downscaler.Scalable.{ScalableResource}
use go_kube_downscaler.Scalable.ReplicaScaled.{ReplicaScaledResource}
use go_kube_downscaler.Scalable.ReplicaScaled.Laws.{ReplicaLaws}
use go_kube_downscaler.Scalable.Resources.{Container, total_requests, times, replicas_of_field}

pub record Counted : Type 0 where
  pub annotations : Dict Text
  pub replicas : Option ℤ
  pub containers : List Container

abbrev pub base : ScalableResource Counted
base = record {
  get_annotations = λ c. c.annotations;
  set_annotations = λ a c. record c { annotations = a };
}

unfoldable pub set_replicas : ℤ → Counted → Result Counted
set_replicas n c = ok (record c { replicas = some n })

unfoldable pub get_replicas : Counted → Result Replicas
unfolding replicas_of_field
get_replicas c = replicas_of_field c.replicas

-- `savedResourcesFromContainers`.
unfoldable pub saved_resources_from_containers : List Container → ℤ → SavedResources
unfolding total_requests
saved_resources_from_containers containers diff_replicas =
    times diff_replicas (total_requests containers)

abbrev pub counted : ReplicaScaledResource Counted
counted = record {
  base = base;
  set_replicas = set_replicas;
  get_replicas = get_replicas;
  get_saved_resources_requests = λ n c. saved_resources_from_containers c.containers n;
}

abbrev pub stateful_set : ReplicaScaledResource Counted
stateful_set = counted

abbrev pub rollout : ReplicaScaledResource Counted
rollout = counted

abbrev pub clone_set : ReplicaScaledResource Counted
clone_set = counted

abbrev pub prometheus : ReplicaScaledResource Counted
prometheus = counted

abbrev pub stack : ReplicaScaledResource Counted
stack = counted

-- Of both versions of the API.
abbrev pub advanced_stateful_set : ReplicaScaledResource Counted
advanced_stateful_set = counted

abbrev pub owns_nothing : String → Bool
owns_nothing k = false

abbrev pub AnyCount : Counted → ℤ → Type 0
AnyCount c n = Unit

-- Each kind keeps what is asked of a resource with a count, for every count.
pub counted_laws : ReplicaLaws counted AnyCount owns_nothing
unfolding set_replicas get_replicas replicas_of_field
counted_laws = record {
  annotations = record { get_set = λ a w. refl };
  not_original = refl;
  get_frame = λ a w h. refl;
  get_set = λ n w h. (record w { replicas = some n }, refl, refl);
  get_ok = λ n w w' i e. (absolute n, ap get_replicas (sym (ok-injective e)));
  set_frame = λ n w w' k e o. ap (λ (c : Counted). lookup k c.annotations) (sym (ok-injective e));
  hold_set = λ n c w w' e h. h;
  hold_annotations = λ a w c h. h;
}
