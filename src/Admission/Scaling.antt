-- ===== src/Admission/Scaling.antt =====
-- evaluateWorkloadScalingConditions and mutateWorkload of
-- internal/api/kubernetes/admission/workloadMutationHandler.go: what the webhook does with a
-- workload that nothing excludes.
--
-- The copying and the comparing of an object, and the writing of a patch as JSON, are operations of
-- `Mutable`.
use go_kube_downscaler.Prelude.{
  ℕ, Bool, true, false, Option, none, some, List, String, if◌then◌else◌,
}
use go_kube_downscaler.Fault.{Fault, Result, ok, err, scaling_invalid}
use go_kube_downscaler.Text.{Text, codes}
use go_kube_downscaler.Dict.{Dict}
use go_kube_downscaler.Replicas.{Replicas}
use go_kube_downscaler.Scalable.{ScalingSummary}
use go_kube_downscaler.Scalable.Filter.{RegexList, Listed}
use go_kube_downscaler.Values.{
  Scope, Scopes, Scaling, scaling_none, scaling_ignore, scaling_down, scaling_up, scaling_multiple,
  scaling_incomplete,
}
use go_kube_downscaler.Values.Query.{get_downscale_replicas}
use go_kube_downscaler.Admission.{
  AdmissionMetrics, AdmissionReview, new_review_response, new_patch_review_response,
  update_requests_total,
}

-- The part of the interface `Workload` that the webhook uses, and `json.Marshal` of a patch.
pub record Mutable (R P : Type 0) : Type 0 where
  pub listed : R → Listed
  pub get_annotations : R → Dict Text
  pub copy : R → Result R
  pub scale_down : Replicas → R → Result (R × ScalingSummary)
  pub compare : R → R → Result P
  pub marshal : P → Result Text

-- `WorkloadMutationHandler`, but for the client and the metrics.
pub record Handler : Type 0 where
  pub scope_cli : Scope
  pub scope_env : Scope
  pub scope_default : Scope
  pub include_namespaces : Option (List String)
  pub dry_run : Bool
  pub include_labels : RegexList
  pub exclude_namespaces : RegexList
  pub exclude_workloads : RegexList
  pub include_resources_set : List Text
  pub metrics_enabled : Bool

-- The calls of the client.
pub record Lookups : Type 0 where
  pub get_scaled_objects : String → Result (List Listed)
  pub get_namespace_scope : String → Result Scope

-- A Go function that counts a request and returns a review and an error, `none` being nil.
abbrev pub Outcome : Type 0
Outcome = AdmissionMetrics × AdmissionReview × Option Fault

-- `http.StatusAccepted`.
abbrev pub status_accepted : ℕ
status_accepted = 202

module _ (h : Handler) (uid : Text) (namespace : String) where
  abbrev pub review : Text → Bool → AdmissionReview
  review reason warn = new_review_response uid true status_accepted reason warn h.dry_run

  abbrev pub count : Bool → Bool → AdmissionMetrics → AdmissionMetrics
  count mutated failed m = update_requests_total h.metrics_enabled mutated failed namespace m

  -- The request is counted, and allowed with a reason.
  abbrev pub pass : Text → AdmissionMetrics → Outcome
  pass reason m = (count false false m, review reason false, none)

  -- The request is counted as an error too, and allowed with a warning.
  abbrev pub warn : Text → Fault → AdmissionMetrics → Outcome
  warn reason e m = (count false true m, review reason true, some e)

  module _ {R P : Type 0} (ops : Mutable R P) where
    abbrev pub patched : Result Text → AdmissionMetrics → Outcome
    patched (err e) m = warn (codes "failed to marshal patch") e m
    patched (ok json_patch) m =
        if h.dry_run
        then pass (codes "would have patched workload") m
        else (count true false m, new_patch_review_response uid json_patch, none)

    abbrev pub compared : Result P → AdmissionMetrics → Outcome
    compared (err e) m = warn (codes "failed to compare workload") e m
    compared (ok patch) m = patched (ops.marshal patch) m

    abbrev pub lowered : R → Result (R × ScalingSummary) → AdmissionMetrics → Outcome
    lowered w (err e) m = warn (codes "failed to scale down workload") e m
    lowered w (ok (copy, summary)) m = compared (ops.compare w copy) m

    abbrev pub copied : Replicas → R → Result R → AdmissionMetrics → Outcome
    copied replicas w (err e) m =
        (count false false m, review (codes "failed to deep copy workload") true, some e)
    copied replicas w (ok copy) m = lowered w (ops.scale_down replicas copy) m

    unfoldable pub mutate_workload : Replicas → R → AdmissionMetrics → Outcome
    mutate_workload replicas w m = copied replicas w (ops.copy w) m

    abbrev pub downscaled : Result Replicas → R → AdmissionMetrics → Outcome
    unfolding mutate_workload
    downscaled (err e) w m =
        (count false false m, review (codes "failed to get downscaleReplicas") true, some e)
    downscaled (ok replicas) w m = mutate_workload replicas w m

    -- A request to scale up is not counted.
    unfoldable pub evaluate_workload_scaling_conditions :
        Scaling → Scopes → R → AdmissionMetrics → Outcome
    unfolding mutate_workload
    evaluate_workload_scaling_conditions scaling_none scopes w m =
        pass (codes "scaling configuration is not set for workload") m
    evaluate_workload_scaling_conditions scaling_ignore scopes w m =
        pass (codes "scaling configuration is ignored for workload") m
    evaluate_workload_scaling_conditions scaling_incomplete scopes w m =
        pass (codes "scaling configuration incomplete missing values in timespan, skipping") m
    evaluate_workload_scaling_conditions scaling_multiple scopes w m = (
      count false false m,
      review (codes "scaling configuration is invalid for workload") false,
      some scaling_invalid,
    )
    evaluate_workload_scaling_conditions scaling_down scopes w m =
        downscaled (get_downscale_replicas scopes) w m
    evaluate_workload_scaling_conditions scaling_up scopes w m =
        (m, review (codes "workload matches scaling up conditions") false, none)
