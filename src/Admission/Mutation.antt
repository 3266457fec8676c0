-- ===== src/Admission/Mutation.antt =====
-- internal/api/kubernetes/admission/workloadMutationHandler.go: which workloads the webhook
-- changes.
--
-- The lists of scaled objects and the scopes of namespaces are functions, as the client gives them.
-- `now` is what `time.Now()` returns.
pub mod Agreement
pub mod Ends
pub mod Lowering
pub mod Branches
pub mod Allowed
pub mod Patches
pub mod Counting
pub mod External
use go_kube_downscaler.Prelude.{
  ℕ, Bool, true, false, ◌&&◌, not, any, Option, none, some, List, [], ◌∷◌, String, str_eq, ℤ,
  if◌then◌else◌,
}
use go_kube_downscaler.Fault.{Fault, Result, ok, err, scaling_invalid}
use go_kube_downscaler.Text.{Text, codes, text_eq, to_lower}
use go_kube_downscaler.Dict.{Dict}
use go_kube_downscaler.Replicas.{Replicas}
use go_kube_downscaler.Scalable.{ScalingSummary}
use go_kube_downscaler.Scalable.Filter.{
  RegexList, Listed, filter_excluded, get_externally_scaled, is_externally_scaled,
}
use go_kube_downscaler.Time.{Location}
use go_kube_downscaler.Values.{
  Scope, Scopes, new_scope, Scaling, scaling_none, scaling_ignore, scaling_down, scaling_up,
  scaling_multiple, scaling_incomplete,
}
use go_kube_downscaler.Values.Query.{get_downscale_replicas, get_excluded}
use go_kube_downscaler.Values.Decision.{get_current_scaling}
use go_kube_downscaler.Values.ScopeParser.{get_scope_from_annotations}
use go_kube_downscaler.Admission.{
  AdmissionMetrics, AdmissionReview, AdmissionRequest, HttpRequest, new_review_response,
  new_patch_review_response, update_requests_total, parse_admission_review_from_request,
}
use go_kube_downscaler.Admission.Scaling.{
  Mutable, Handler, Lookups, Outcome, status_accepted, review, count, pass, warn, patched, compared,
  lowered, copied, mutate_workload, downscaled, evaluate_workload_scaling_conditions,
}

-- What the handler writes.
pub data Reply : Type 0 where
  bad_request : Fault → Reply
  review_of : AdmissionReview → Reply

module _ {R P : Type 0} (ops : Mutable R P) (lookups : Lookups)
    (load_location : Text → Result Location) (now : ℤ) (h : Handler) where
  abbrev pub externally_scaled :
      Text → Listed → Result (List Listed) → Option (AdmissionReview × Option Fault)
  externally_scaled uid w (err e) = some (
    review h uid w.namespace
        (codes "failed to get scaledobjects from namespace to evaluate external scaling condition")
        true,
    some e,
  )
  externally_scaled uid w (ok scaled_objects) =
      if is_externally_scaled w (get_externally_scaled scaled_objects)
      then some (
        review h uid w.namespace (codes "workload is excluded from downscaling, externally managed")
            false,
        none,
      )
      else none

  -- `none` is the error `ErrNoExternalScaling`.
  unfoldable pub evaluate_external_scaling_condition :
      Text → Listed → Option (AdmissionReview × Option Fault)
  evaluate_external_scaling_condition uid w =
      if any (λ resource. text_eq resource (codes "scaledobjects")) h.include_resources_set
      then externally_scaled uid w (lookups.get_scaled_objects w.namespace)
      else none

  -- `v.includeNamespaces` is set, is not empty, and does not hold the namespace.
  unfoldable pub is_namespace_left_out : String → Option (List String) → Bool
  is_namespace_left_out namespace none = false
  is_namespace_left_out namespace (some []) = false
  is_namespace_left_out namespace (some (n ∷ ns)) = not (any (λ k. str_eq k namespace) (n ∷ ns))

  abbrev pub scopes_of : Scope → Scope → Scopes
  scopes_of workload namespace = record {
    workload = workload;
    namespace = namespace;
    cli = h.scope_cli;
    environment = h.scope_env;
    default = h.scope_default;
  }

  unfoldable pub unless_excluded : Text → R → Scopes → AdmissionMetrics → Outcome
  unfolding evaluate_workload_scaling_conditions
  unless_excluded uid w scopes m =
      if get_excluded now scopes scopes
      then pass h uid (ops.listed w).namespace
          (codes "workload is excluded from downscaling, doesn't need mutation") m
      else evaluate_workload_scaling_conditions h uid (ops.listed w).namespace ops
          (get_current_scaling now scopes).scaling scopes w m

  unfoldable pub with_namespace_scope : Text → R → Scope → Result Scope → AdmissionMetrics → Outcome
  unfolding unless_excluded
  with_namespace_scope uid w scope (err e) m =
      warn h uid (ops.listed w).namespace (codes "failed to get namespace scope from annotations") e
        m
  with_namespace_scope uid w scope (ok namespace) m =
      unless_excluded uid w (scopes_of scope namespace) m

  unfoldable pub with_scope : Text → R → Result Scope → AdmissionMetrics → Outcome
  unfolding with_namespace_scope
  with_scope uid w (err e) m =
      warn h uid (ops.listed w).namespace (codes "failed to parse workload scope from annotations")
        e m
  with_scope uid w (ok scope) m =
      with_namespace_scope uid w scope (lookups.get_namespace_scope (ops.listed w).namespace) m

  -- What is left of the one workload after `FilterExcluded`.
  unfoldable pub unless_filtered : Text → R → List R → AdmissionMetrics → Outcome
  unfolding with_scope
  unless_filtered uid w [] m =
      pass h uid (ops.listed w).namespace
        (codes "workload is excluded from downscaling, doesn't need mutation") m
  unless_filtered uid w (_ ∷ _) m =
      with_scope uid w (get_scope_from_annotations load_location (ops.get_annotations w) new_scope)
        m

  unfoldable pub unless_external :
      Text → R → Option (AdmissionReview × Option Fault) → AdmissionMetrics → Outcome
  unfolding unless_filtered
  unless_external uid w (some (r, e)) m = (count h uid (ops.listed w).namespace false false m, r, e)
  unless_external uid w none m =
      unless_filtered uid w
        (filter_excluded ops.listed (w ∷ []) h.include_labels h.exclude_namespaces
          h.exclude_workloads none).0
        m

  unfoldable pub evaluate_workload_mutation : Text → R → AdmissionMetrics → Outcome
  unfolding unless_external evaluate_external_scaling_condition is_namespace_left_out
  evaluate_workload_mutation uid w m =
      if is_namespace_left_out (ops.listed w).namespace h.include_namespaces
      then pass h uid (ops.listed w).namespace
          (codes
            "workload namespace is not in the list of included namespaces, excluding it from downscaling")
          m
      else unless_external uid w (evaluate_external_scaling_condition uid (ops.listed w)) m

  abbrev pub replied : Outcome → AdmissionMetrics × Reply
  replied (m, r, e) = (m, review_of r)

  unfoldable pub handle_workload : Text → Result R → AdmissionMetrics → AdmissionMetrics × Reply
  unfolding evaluate_workload_mutation
  handle_workload uid (err e) m = (
    m,
    review_of (
        new_review_response uid true status_accepted
          (codes "failed to parse workload from raw object") true h.dry_run),
  )
  handle_workload uid (ok w) m = replied (evaluate_workload_mutation uid w m)

  unfoldable pub handle_request :
      (Text → Text → Result R)
      → Result AdmissionRequest
      → AdmissionMetrics
      → AdmissionMetrics × Reply
  unfolding handle_workload
  handle_request parse (err e) m = (m, bad_request e)
  handle_request parse (ok request) m =
      handle_workload request.uid (parse (to_lower request.kind) request.raw) m

  -- `HandleWorkloadMutation`; `parse` is `ParseWorkloadFromRawObject`.
  unfoldable pub handle_workload_mutation :
      (Text → Option (Option AdmissionRequest))
      → (Text → Text → Result R)
      → HttpRequest
      → AdmissionMetrics
      → AdmissionMetrics × Reply
  unfolding handle_request
  handle_workload_mutation unmarshal parse request m =
      handle_request parse (parse_admission_review_from_request unmarshal request) m
