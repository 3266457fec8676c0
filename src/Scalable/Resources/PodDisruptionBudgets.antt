-- ===== src/Scalable/Resources/PodDisruptionBudgets.antt =====
-- internal/pkg/scalable/poddisruptionbudgets.go: a budget scales its own limits.
pub mod Limits
pub mod RoundTrip
use go_kube_downscaler.Prelude.{◌≡◌, Bool, true, false, Option, none, some, String, if◌then◌else◌}
use go_kube_downscaler.Fault.{Result, ok, err}
use go_kube_downscaler.Text.{Text, text_eq}
use go_kube_downscaler.Dict.{Dict}
use go_kube_downscaler.Replicas.{
  Replicas, IntOrString, to_text, as_int_str, new_replicas_from_int_or_str,
}
use go_kube_downscaler.Metrics.{no_saved_resources}
use go_kube_downscaler.Scalable.{
  ScalableResource, ScalingSummary, no_summary, set_original_replicas, get_original_replicas,
  remove_original_replicas, is_original_replicas_unset,
}

abbrev pub max_unavailable_attribute : String
max_unavailable_attribute = "maxUnavailable"

abbrev pub min_available_attribute : String
min_available_attribute = "minAvailable"

pub record PodDisruptionBudget : Type 0 where
  pub annotations : Dict Text
  pub min_available : Option IntOrString
  pub max_unavailable : Option IntOrString

abbrev pub base : ScalableResource PodDisruptionBudget
base = record {
  get_annotations = λ p. p.annotations;
  set_annotations = λ a p. record p { annotations = a };
}

unfoldable pub get_min_available : PodDisruptionBudget → Option Replicas
get_min_available p = new_replicas_from_int_or_str p.min_available

unfoldable pub set_min_available : Replicas → PodDisruptionBudget → PodDisruptionBudget
set_min_available target p = record p { min_available = some (as_int_str target) }

unfoldable pub get_max_unavailable : PodDisruptionBudget → Option Replicas
get_max_unavailable p = new_replicas_from_int_or_str p.max_unavailable

unfoldable pub set_max_unavailable : Replicas → PodDisruptionBudget → PodDisruptionBudget
set_max_unavailable target p = record p { max_unavailable = some (as_int_str target) }

abbrev pub transition : Bool → Replicas → Replicas → String → ScalingSummary
transition update from to attribute = record no_summary {
  is_update_needed = update;
  from = some from;
  to = some to;
  attribute = attribute;
}

-- The two limits of a budget, the first that is set being the one to scale.
unfoldable pub raise :
    PodDisruptionBudget
    → Replicas
    → Option Replicas
    → Option Replicas
    → PodDisruptionBudget × ScalingSummary
raise p original (some max_unavailable) _ = (
  remove_original_replicas base (set_max_unavailable original p),
  transition true max_unavailable original max_unavailable_attribute,
)
raise p original none (some min_available) = (
  remove_original_replicas base (set_min_available original p),
  transition true min_available original min_available_attribute,
)
raise p original none none = (p, no_summary)

unfoldable pub raise_or_skip :
    PodDisruptionBudget → Result Replicas → Result (PodDisruptionBudget × ScalingSummary)
unfolding raise
raise_or_skip p (err e) = if is_original_replicas_unset e then ok (p, no_summary) else err e
raise_or_skip p (ok original) = ok (raise p original (get_max_unavailable p) (get_min_available p))

-- `ScaleUp`.
unfoldable pub scale_up : PodDisruptionBudget → Result (PodDisruptionBudget × ScalingSummary)
unfolding raise_or_skip
scale_up p = raise_or_skip p (get_original_replicas base p)

abbrev pub reported : ScalingSummary → ScalingSummary
reported s = record s { saved_resources = some no_saved_resources }

unfoldable pub lower :
    PodDisruptionBudget
    → Replicas
    → Option Replicas
    → Option Replicas
    → PodDisruptionBudget × ScalingSummary
lower p target (some max_unavailable) _ =
    if text_eq (to_text max_unavailable) (to_text target)
    then (p, reported (transition false max_unavailable target max_unavailable_attribute))
    else (
      set_original_replicas base max_unavailable (set_max_unavailable target p),
      reported (transition true max_unavailable target max_unavailable_attribute),
    )
lower p target none (some min_available) =
    if text_eq (to_text min_available) (to_text target)
    then (p, reported (transition false min_available target min_available_attribute))
    else (
      set_original_replicas base min_available (set_min_available target p),
      reported (transition true min_available target min_available_attribute),
    )
lower p target none none = (p, reported no_summary)

-- `ScaleDown`, which never fails.
unfoldable pub scale_down :
    Replicas → PodDisruptionBudget → Result (PodDisruptionBudget × ScalingSummary)
unfolding lower
scale_down target p = ok (lower p target (get_max_unavailable p) (get_min_available p))
