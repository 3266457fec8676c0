-- ===== src/Examples/Webhook.antt =====
-- The theorems on the webhook, at a deployment whose namespace is down.
use go_kube_downscaler.Prelude.{
  ◌≡◌, ◌⊎◌, refl, any, true, false, List, [], ◌∷◌, Option, none, some, String, pos,
}
use go_kube_downscaler.Fault.{Result, ok}
use go_kube_downscaler.Text.{Text, codes, text_eq}
use go_kube_downscaler.Dict.{lookup}
use go_kube_downscaler.Replicas.{as_int32}
use go_kube_downscaler.Scalable.Filter.{
  Listed, get_externally_scaled, filter_excluded, is_matching_labels, is_namespace_excluded,
  is_workload_excluded, is_externally_scaled,
}
use go_kube_downscaler.Values.{new_scope}
use go_kube_downscaler.Values.Span.{in_time_spans, is_time_in_span}
use go_kube_downscaler.Values.Query.{
  get_excluded, exclusion, exclusion_until, get_downscale_replicas,
}
use go_kube_downscaler.Values.Decision.{get_current_scaling, forced, unforced}
use go_kube_downscaler.Values.ScopeScaling.{
  get_force_scaling, get_scope_scaling, check_for_incompatible_fields,
}
use go_kube_downscaler.Values.ScopeParser.{get_scope_from_annotations}
use go_kube_downscaler.Scalable.Kinds.{Kind}
use go_kube_downscaler.Scalable.ReplicaScaled.{scale_down, stay_or_lower}
use go_kube_downscaler.Scalable.Resources.Deployments.{
  Deployment, deployment, get_replicas, set_replicas,
}
use go_kube_downscaler.Client.{get_scaled_objects}
use go_kube_downscaler.Admission.{
  AdmissionRequest, HttpRequest, new_patch_review_response, parse_admission_review_from_request,
}
use go_kube_downscaler.Admission.Mutation.{evaluate_workload_mutation, handle_workload_mutation}
use go_kube_downscaler.Admission.Scaling.{Mutable, Handler, Lookups}
use go_kube_downscaler.Admission.Mutation.Ends.{IsMutation, IsScaledUp}
use go_kube_downscaler.Admission.Mutation.Allowed.{Answers, handle_workload_mutation-Answers}
use go_kube_downscaler.Admission.Mutation.Patches.{evaluate_workload_mutation-IsMutation}
use go_kube_downscaler.Admission.Mutation.Counting.{IsCounted, evaluate_workload_mutation-IsCounted}
use go_kube_downscaler.Admission.Mutation.External.{evaluate_workload_mutation-scaled_objects}
use go_kube_downscaler.Examples.{utc_only, always, empty_scope, environment_scope, default_scope}
use go_kube_downscaler.Examples.Workloads.{shop}
use go_kube_downscaler.Examples.Filters.{deployment_named}

-- A patch is shown by the object that it leads to; it is written as a fixed text.
abbrev pub ops : Mutable Deployment Deployment
ops = record {
  listed = λ w. deployment_named (codes "front") "shop";
  get_annotations = λ w. w.annotations;
  copy = ok;
  scale_down = scale_down deployment;
  compare = λ w copy. ok copy;
  marshal = λ p. ok (codes "patch");
}

abbrev list : Kind → String → Result (List Listed)
list kind namespace = ok []

abbrev pub lookups : Lookups
lookups = record {
  get_scaled_objects = get_scaled_objects list;
  get_namespace_scope = λ n. ok (record empty_scope { down_time = always });
}

abbrev handler : List Text → Handler
handler resources = record {
  scope_cli = empty_scope;
  scope_env = environment_scope;
  scope_default = default_scope;
  include_namespaces = none;
  dry_run = false;
  include_labels = none;
  exclude_namespaces = none;
  exclude_workloads = none;
  include_resources_set = resources;
  metrics_enabled = true;
}

abbrev pub deployments_only : Handler
deployments_only = handler (codes "deployments" ∷ [])

abbrev both : Handler
both = handler (codes "deployments" ∷ codes "scaledobjects" ∷ [])

abbrev pub uid : Text
uid = codes "1"

pub patch_of_shop :
    (evaluate_workload_mutation ops lookups utc_only (pos 0) deployments_only uid shop none).1.patch
    ≡ some (codes "patch")
unfolding evaluate_workload_mutation text_eq filter_excluded is_matching_labels
    is_namespace_excluded is_workload_excluded is_externally_scaled get_scope_from_annotations
    lookup check_for_incompatible_fields new_scope get_excluded exclusion exclusion_until
    get_current_scaling forced get_force_scaling in_time_spans unforced get_scope_scaling
    is_time_in_span get_downscale_replicas scale_down as_int32 get_replicas stay_or_lower
    set_replicas new_patch_review_response
patch_of_shop = refl

-- A cluster in which the scaled objects can be listed.
abbrev listing : Lookups
listing = record lookups { get_scaled_objects = λ n. ok [] }

patch_beside_scaled_objects :
    (evaluate_workload_mutation ops listing utc_only (pos 0) both uid shop none).1.patch
    ≡ some (codes "patch")
unfolding evaluate_workload_mutation text_eq filter_excluded is_matching_labels
    is_namespace_excluded is_workload_excluded is_externally_scaled get_externally_scaled
    get_scope_from_annotations lookup check_for_incompatible_fields new_scope get_excluded exclusion
    exclusion_until get_current_scaling forced get_force_scaling in_time_spans unforced
    get_scope_scaling is_time_in_span get_downscale_replicas scale_down as_int32 get_replicas
    stay_or_lower set_replicas new_patch_review_response
patch_beside_scaled_objects = refl

evaluate_workload_mutation-IsMutation_example :
    IsMutation ops listing utc_only (pos 0) both uid shop (codes "patch")
evaluate_workload_mutation-IsMutation_example =
    evaluate_workload_mutation-IsMutation ops listing utc_only (pos 0) both uid shop none
      (codes "patch") patch_beside_scaled_objects

evaluate_workload_mutation-IsCounted_example :
    IsCounted ops lookups utc_only
      (pos 0)
      deployments_only
      uid
      shop
      "shop"
      []
      (evaluate_workload_mutation ops lookups utc_only (pos 0) deployments_only uid shop (some []))
    ⊎ (((evaluate_workload_mutation ops lookups utc_only
            (pos 0)
            deployments_only
            uid
            shop
            (some [])).0
          ≡ some [])
        × ((evaluate_workload_mutation ops lookups utc_only
              (pos 0)
              deployments_only
              uid
              shop
              (some [])).1.patch
            ≡ none)
        × IsScaledUp ops lookups utc_only (pos 0) deployments_only uid shop)
evaluate_workload_mutation-IsCounted_example =
    evaluate_workload_mutation-IsCounted ops lookups utc_only (pos 0) deployments_only uid shop []
      refl

has_scaled_objects :
    any (λ resource. text_eq resource (codes "scaledobjects")) both.include_resources_set ≡ true
unfolding text_eq
has_scaled_objects = refl

evaluate_workload_mutation-scaled_objects_example :
    (evaluate_workload_mutation ops lookups utc_only (pos 0) both uid shop none).1.patch ≡ none
evaluate_workload_mutation-scaled_objects_example =
    evaluate_workload_mutation-scaled_objects ops lookups utc_only (pos 0) both list uid shop none
      (λ n. refl) has_scaled_objects

abbrev unmarshal : Text → Option (Option AdmissionRequest)
unmarshal body = some (some (record { uid = body; kind = codes "Deployment"; raw = [] }))

abbrev request : HttpRequest
request = record { content_type = codes "application/json"; body = ok (codes "1") }

handle_workload_mutation-Answers_example :
    Answers ops lookups utc_only
      (pos 0)
      deployments_only
      (parse_admission_review_from_request unmarshal request)
      (handle_workload_mutation ops lookups utc_only
        (pos 0)
        deployments_only
        unmarshal
        (λ kind raw. ok shop)
        request
        none).1
handle_workload_mutation-Answers_example =
    handle_workload_mutation-Answers ops lookups utc_only (pos 0) deployments_only unmarshal
      (λ kind raw. ok shop) request none
