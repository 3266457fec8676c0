-- ===== src/Examples/States.antt =====
-- The theorems on workloads with a state other than a count, at workloads of the kinds that have
-- one.
use go_kube_downscaler.Prelude.{◌≡◌, refl, true, false, [], ◌∷◌, none, some, pos, arith, ◌+ℤ◌, ◌*ℤ◌}
use go_kube_downscaler.Fault.{ok}
use go_kube_downscaler.Text.{Text, codes, is_alpha, is_letter, text_eq, to_lower}
use go_kube_downscaler.Text.Decimal.{itoa}
use go_kube_downscaler.Dict.{Dict, lookup, insert}
use go_kube_downscaler.Metrics.{no_saved_resources}
use go_kube_downscaler.Replicas.{
  Replicas, absolute, boolean, string, to_text, int, is_boolean_string, as_int_str,
  new_replicas_from_int_or_str,
}
use go_kube_downscaler.Replicas.RoundTrip.{IsStorable}
use go_kube_downscaler.Scalable.{
  annotation_original_replicas, ScalingSummary, no_summary, replicas_eq, set_original_replicas,
}
use go_kube_downscaler.Scalable.Restored.{IsRestored}
use go_kube_downscaler.Scalable.SuspendScaled as Suspended
use go_kube_downscaler.Scalable.SuspendScaled.RoundTrip as SuspendedTrip
use go_kube_downscaler.Scalable.ValueScaled as Valued
use go_kube_downscaler.Scalable.ValueScaled.RoundTrip as ValuedTrip
use go_kube_downscaler.Scalable.NodeSelectorScaled as Selected
use go_kube_downscaler.Scalable.NodeSelectorScaled.RoundTrip as SelectedTrip
use go_kube_downscaler.Scalable.Resources.{total_requests}
use go_kube_downscaler.Scalable.Resources.Jobs as Jobs
use go_kube_downscaler.Scalable.Resources.Services as Services
use go_kube_downscaler.Scalable.Resources.DaemonSets as DaemonSets
use go_kube_downscaler.Scalable.Resources.PodDisruptionBudgets as Budgets
use go_kube_downscaler.Scalable.Resources.PodDisruptionBudgets.RoundTrip as BudgetsTrip

abbrev import_job : Jobs.Job
import_job = record { annotations = []; suspend = none; parallelism = none; containers = [] }

abbrev noted : Text → Dict Text
noted text = (annotation_original_replicas, text) ∷ []

abbrev suspended_job : Jobs.Job
suspended_job = record import_job { annotations = noted (codes "false"); suspend = some true }

abbrev to_from : Replicas → Replicas → ScalingSummary
to_from a b = record no_summary {
  saved_resources = some no_saved_resources;
  is_update_needed = true;
  from = some a;
  to = some b;
}

job_suspends :
    Suspended.scale_down Jobs.job (absolute (pos 0)) import_job
    ≡ ok (suspended_job, to_from (boolean false) (boolean true))
unfolding total_requests Suspended.scale_down Suspended.suspend Jobs.get_suspend Jobs.set_suspend
    Jobs.get_saved_resources_requests replicas_eq set_original_replicas insert to_text ◌+ℤ◌ ◌*ℤ◌
job_suspends = refl

unsuspend-suspend_example :
    IsRestored Jobs.base Jobs.job_laws.annotations
      (Suspended.scale_up Jobs.job)
      Jobs.get_suspend
      import_job
      suspended_job
unsuspend-suspend_example =
    SuspendedTrip.unsuspend-suspend Jobs.job Jobs.job_laws import_job suspended_job
      (absolute (pos 0)) (to_from (boolean false) (boolean true)) job_suspends refl

abbrev load_balancer : Replicas
load_balancer = string Services.service_type_load_balancer

abbrev cluster_ip : Replicas
cluster_ip = string Services.service_type_cluster_ip

abbrev front : Services.Service
front = record { annotations = []; service_type = Services.service_type_load_balancer }

abbrev hidden_front : Services.Service
hidden_front = record {
  annotations = noted (codes "LoadBalancer");
  service_type = Services.service_type_cluster_ip;
}

front_value : Services.get_value front ≡ ok (load_balancer, cluster_ip)
unfolding Services.get_value
front_value = refl

front_hides :
    Valued.scale_down Services.service (absolute (pos 0)) front
    ≡ ok (hidden_front, to_from load_balancer cluster_ip)
unfolding Valued.scale_down Valued.stay_or_lower Valued.lower_to Services.get_value
    Services.set_value replicas_eq set_original_replicas insert to_text text_eq
front_hides = refl

load_balancer-IsStorable : IsStorable load_balancer
unfolding is_alpha is_letter is_boolean_string to_lower text_eq
load_balancer-IsStorable = (refl, refl)

load_balancer-IsRestorableType : Services.IsRestorableType load_balancer
unfolding text_eq
load_balancer-IsRestorableType = (Services.service_type_load_balancer, refl, refl)

scale_up-change_example :
    IsRestored Services.base Services.service_laws.annotations
      (Valued.scale_up Services.service)
      Services.get_value
      front
      hidden_front
scale_up-change_example =
    ValuedTrip.scale_up-change Services.service cluster_ip Services.IsRestorableType
      Services.service_laws front hidden_front load_balancer (absolute (pos 0))
      (to_from load_balancer cluster_ip) load_balancer-IsStorable load_balancer-IsRestorableType
      front_value front_hides refl

abbrev agent : DaemonSets.DaemonSet
agent = record {
  annotations = [];
  node_selector = ("disk", codes "ssd") ∷ [];
  containers = [];
  current_number_scheduled = pos 2;
}

abbrev idle_agent : DaemonSets.DaemonSet
idle_agent = record agent {
  annotations = noted (codes "false");
  node_selector =
      ("disk", codes "ssd") ∷ (Selected.label_match_none, Selected.label_match_none_value) ∷ [];
}

agent_idles :
    Selected.scale_down DaemonSets.daemon_set (absolute (pos 0)) agent
    ≡ ok (idle_agent, to_from (boolean false) (boolean true))
unfolding total_requests Selected.scale_down Selected.scale_down_selector
    DaemonSets.get_resources_requests set_original_replicas lookup insert to_text ◌+ℤ◌ ◌*ℤ◌
agent_idles = refl

unmatch-match_none_example :
    IsRestored DaemonSets.base DaemonSets.daemon_set_laws.annotations
      (Selected.scale_up DaemonSets.daemon_set)
      (SelectedTrip.required DaemonSets.daemon_set DaemonSets.daemon_set_laws)
      agent
      idle_agent
unmatch-match_none_example =
    SelectedTrip.unmatch-match_none DaemonSets.daemon_set DaemonSets.daemon_set_laws agent
      idle_agent (absolute (pos 0)) (to_from (boolean false) (boolean true)) agent_idles refl

abbrev budget : Budgets.PodDisruptionBudget
budget = record { annotations = []; min_available = some (int (pos 2)); max_unavailable = none }

abbrev lowered_budget : Budgets.PodDisruptionBudget
lowered_budget = record budget {
  annotations = noted (codes "2");
  min_available = some (int (pos 0));
}

abbrev budget_change : ScalingSummary
budget_change = record (to_from (absolute (pos 2)) (absolute (pos 0))) {
  attribute = Budgets.min_available_attribute;
}

budget_lowers : Budgets.scale_down (absolute (pos 0)) budget ≡ ok (lowered_budget, budget_change)
unfolding Budgets.scale_down Budgets.lower Budgets.get_max_unavailable Budgets.get_min_available
    Budgets.set_min_available new_replicas_from_int_or_str as_int_str set_original_replicas insert
    to_text itoa text_eq
budget_lowers = refl

budget_limit : BudgetsTrip.scaled_limit budget ≡ some (as_int_str (absolute (pos 2)))
unfolding as_int_str
budget_limit = refl

raise-lower_example :
    IsRestored Budgets.base BudgetsTrip.budget_laws Budgets.scale_up BudgetsTrip.limits budget
      lowered_budget
raise-lower_example =
    BudgetsTrip.raise-lower budget lowered_budget (absolute (pos 2)) (absolute (pos 0))
      budget_change (omega arith, omega arith) budget_limit budget_lowers refl
