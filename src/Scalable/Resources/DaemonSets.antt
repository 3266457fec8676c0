-- ===== src/Scalable/Resources/DaemonSets.antt =====
-- internal/pkg/scalable/daemonsets.go, and advanceddaemonsets.go, which repeats it for another API.
use go_kube_downscaler.Prelude.{refl, List, ℤ}
use go_kube_downscaler.Text.{Text}
use go_kube_downscaler.Dict.{Dict}
use go_kube_downscaler.Metrics.{SavedResources}
use go_kube_downscaler.Scalable.{ScalableResource}
use go_kube_downscaler.Scalable.NodeSelectorScaled.{NodeSelectorScaledResource}
use go_kube_downscaler.Scalable.NodeSelectorScaled.RoundTrip.{NodeSelectorLaws}
use go_kube_downscaler.Scalable.Resources.{Container, total_requests, times}

pub record DaemonSet : Type 0 where
  pub annotations : Dict Text
  pub node_selector : Dict Text
  pub containers : List Container
  pub current_number_scheduled : ℤ

abbrev pub base : ScalableResource DaemonSet
base = record {
  get_annotations = λ d. d.annotations;
  set_annotations = λ a d. record d { annotations = a };
}

unfoldable pub get_resources_requests : DaemonSet → SavedResources
get_resources_requests d = times d.current_number_scheduled (total_requests d.containers)

abbrev pub get_node_selector : DaemonSet → Dict Text
get_node_selector d = d.node_selector

abbrev pub set_node_selector : Dict Text → DaemonSet → DaemonSet
set_node_selector node_selector d = record d { node_selector = node_selector }

abbrev pub daemon_set : NodeSelectorScaledResource DaemonSet
daemon_set = record {
  base = base;
  get_node_selector = get_node_selector;
  set_node_selector = set_node_selector;
  get_resources_requests = get_resources_requests;
}

-- Of OpenKruise.
abbrev pub advanced_daemon_set : NodeSelectorScaledResource DaemonSet
advanced_daemon_set = daemon_set

pub daemon_set_laws : NodeSelectorLaws daemon_set
daemon_set_laws = record {
  annotations = record { get_set = λ a w. refl };
  get_set = λ m w. refl;
  get_frame = λ a w. refl;
  set_frame = λ m w. refl;
}
