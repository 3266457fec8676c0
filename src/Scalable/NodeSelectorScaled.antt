-- ===== src/Scalable/NodeSelectorScaled.antt =====
-- internal/pkg/scalable/nodeSelectorScaledWorkload.go: workloads that are scaled by a label in
-- their node selector which no node has.
--
-- The source changes the selector's map in place and sets it then, which is the change of the
-- field.
pub mod RoundTrip
use go_kube_downscaler.Prelude.{
  Bool, true, false, String, Option, none, some, if◌then◌else◌, is_some,
}
use go_kube_downscaler.Fault.{Fault, Result, ok, err, ◌>>=◌}
use go_kube_downscaler.Text.{Text, codes}
use go_kube_downscaler.Dict.{Dict, lookup, insert, delete}
use go_kube_downscaler.Replicas.{Replicas, boolean}
use go_kube_downscaler.Metrics.{SavedResources, no_saved_resources}
use go_kube_downscaler.Scalable.{
  ScalableResource, ScalingSummary, no_summary, set_original_replicas, get_original_replicas,
  remove_original_replicas, is_original_replicas_unset,
}

abbrev pub label_match_none : String
label_match_none = "downscaler/match-none"

abbrev pub label_match_none_value : Text
label_match_none_value = codes "true"

-- The interface `nodeSelectorScaledResource`; `getResourcesRequests` does not read its argument.
pub record NodeSelectorScaledResource (R : Type 0) : Type 0 where
  pub base : ScalableResource R
  pub get_node_selector : R → Dict Text
  pub set_node_selector : Dict Text → R → R
  pub get_resources_requests : R → SavedResources

module _ {R : Type 0} (ops : NodeSelectorScaledResource R) where
  open ops use {base, get_node_selector, set_node_selector, get_resources_requests}

  abbrev pub unmatch : R → R
  unmatch w = set_node_selector (delete label_match_none (get_node_selector w)) w

  abbrev pub match_none : R → R
  match_none w =
      set_node_selector (insert label_match_none label_match_none_value (get_node_selector w)) w

  -- `scaleUp`: the workload, and whether an update is needed.
  unfoldable pub scale_up_selector : R → Result Replicas → Result (R × Bool)
  scale_up_selector w (err e) = if is_original_replicas_unset e then ok (w, false) else err e
  scale_up_selector w (ok original) = ok (remove_original_replicas base (unmatch w), true)

  -- `ScaleUp`.
  unfoldable pub scale_up : R → Result (R × ScalingSummary)
  unfolding scale_up_selector
  scale_up w = do
    r ← scale_up_selector w (get_original_replicas base w)
    ok (
      r.0,
      record no_summary {
        is_update_needed = r.1;
        from = some (boolean true);
        to = some (boolean false);
      },
    )

  unfoldable pub stay : R → Result Replicas → Result (R × SavedResources × Bool)
  stay w (err e) = if is_original_replicas_unset e then ok (w, no_saved_resources, false) else err e
  stay w (ok original) = ok (w, get_resources_requests w, false)

  -- `scaleDown`: the workload, what it saves and whether an update is needed.
  unfoldable pub scale_down_selector : R → Result (R × SavedResources × Bool)
  unfolding stay
  scale_down_selector w =
      if is_some (lookup label_match_none (get_node_selector w))
      then stay w (get_original_replicas base w)
      else ok (
        set_original_replicas base (boolean false) (match_none w),
        get_resources_requests (match_none w),
        true,
      )

  -- `ScaleDown`, which does not read the replicas to scale down to.
  unfoldable pub scale_down : Replicas → R → Result (R × ScalingSummary)
  unfolding scale_down_selector
  scale_down target w = do
    r ← scale_down_selector w
    ok (
      r.0,
      record no_summary {
        saved_resources = some r.1;
        is_update_needed = r.2;
        from = some (boolean false);
        to = some (boolean true);
      },
    )
