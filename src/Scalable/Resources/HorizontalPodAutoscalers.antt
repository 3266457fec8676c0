-- ===== src/Scalable/Resources/HorizontalPodAutoscalers.antt =====
-- internal/pkg/scalable/horizontalpodautoscalers.go
use mathlib.Core.Path.{subst}
use go_kube_downscaler.Prelude.{
  ◌≡◌, refl, ap, sym, Bool, false, String, Option, some, ℤ, pos, ltb_ℤ, ◌≤ℤ◌, arith, inl, inr,
  Bool-cases, if◌then◌else◌,
}
use go_kube_downscaler.Fault.{Result, ok, err, ok-injective, min_replicas_bounds_exceeded}
use go_kube_downscaler.Text.{Text}
use go_kube_downscaler.Dict.{Dict, lookup}
use go_kube_downscaler.Replicas.{Replicas, absolute}
use go_kube_downscaler.Metrics.{SavedResources, no_saved_resources}
use go_kube_downscaler.Scalable.{ScalableResource}
use go_kube_downscaler.Scalable.ReplicaScaled.{ReplicaScaledResource}
use go_kube_downscaler.Scalable.ReplicaScaled.Laws.{ReplicaLaws}
use go_kube_downscaler.Scalable.Resources.{replicas_of_field}

pub record HorizontalPodAutoscaler : Type 0 where
  pub annotations : Dict Text
  pub min_replicas : Option ℤ
  pub max_replicas : ℤ

abbrev pub base : ScalableResource HorizontalPodAutoscaler
base = record {
  get_annotations = λ h. h.annotations;
  set_annotations = λ a h. record h { annotations = a };
}

unfoldable pub set_replicas : ℤ → HorizontalPodAutoscaler → Result HorizontalPodAutoscaler
set_replicas n h =
    if ltb_ℤ n (pos 1)
    then err min_replicas_bounds_exceeded
    else if ltb_ℤ h.max_replicas n
    then ok (record h { min_replicas = some h.max_replicas })
    else ok (record h { min_replicas = some n })

unfoldable pub get_replicas : HorizontalPodAutoscaler → Result Replicas
unfolding replicas_of_field
get_replicas h = replicas_of_field h.min_replicas

abbrev pub get_saved_resources_requests : ℤ → HorizontalPodAutoscaler → SavedResources
get_saved_resources_requests diff_replicas h = no_saved_resources

abbrev pub horizontal_pod_autoscaler : ReplicaScaledResource HorizontalPodAutoscaler
horizontal_pod_autoscaler = record {
  base = base;
  set_replicas = set_replicas;
  get_replicas = get_replicas;
  get_saved_resources_requests = get_saved_resources_requests;
}

abbrev pub owns_nothing : String → Bool
owns_nothing k = false

-- Counts that are neither refused nor clamped.
abbrev pub InBounds : HorizontalPodAutoscaler → ℤ → Type 0
InBounds h n = (pos 1 ≤ℤ n) × (n ≤ℤ h.max_replicas)

-- What a `setReplicas` that succeeded has done.
set_replicas-eq :
    (n : ℤ) (h h' : HorizontalPodAutoscaler)
    → set_replicas n h ≡ ok h'
    → (c : ℤ) × (h' ≡ record h { min_replicas = some c })
unfolding set_replicas
set_replicas-eq n h h' e = elim (Bool-cases (ltb_ℤ n (pos 1))) [
  | inl low ↦ cc (rw low at e)
  | inr fine ↦ elim (Bool-cases (ltb_ℤ h.max_replicas n)) [
    | inl above ↦ (h.max_replicas, sym (ok-injective (rw (fine, above) at e)))
    | inr within ↦ (n, sym (ok-injective (rw (fine, within) at e)))
  ]
]

set_replicas-InBounds :
    (n : ℤ) (h : HorizontalPodAutoscaler)
    → InBounds h n
    → set_replicas n h ≡ ok (record h { min_replicas = some n })
unfolding set_replicas
set_replicas-InBounds n h i = ground arith

-- An autoscaler keeps what is asked of a resource with a count, for counts from 1 to its maximum:
-- these are read back as they were set, and no annotation is touched.
pub horizontal_pod_autoscaler_laws : ReplicaLaws horizontal_pod_autoscaler InBounds owns_nothing
unfolding get_replicas replicas_of_field
horizontal_pod_autoscaler_laws = record {
  annotations = record { get_set = λ a w. refl };
  not_original = refl;
  get_frame = λ a w h. refl;
  get_set = λ n w h. (record w { min_replicas = some n }, set_replicas-InBounds n w h, refl);
  get_ok = λ n w w' i e. let (c, p) = set_replicas-eq n w w' e in (absolute c, ap get_replicas p);
  set_frame = λ n w w' k e o.
      let (c, p) = set_replicas-eq n w w' e in
      ap (λ (h : HorizontalPodAutoscaler). lookup k h.annotations) p;
  hold_set =
      λ n c w w' e h. let (m, p) = set_replicas-eq n w w' e in subst (λ x. InBounds x c) (sym p) h;
  hold_annotations = λ a w c h. h;
}
