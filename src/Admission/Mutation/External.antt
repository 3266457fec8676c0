-- ===== src/Admission/Mutation/External.antt =====
-- What becomes of the check for scaled objects with the client's `GetScaledObjects`.
use go_kube_downscaler.Prelude.{◌≡◌, refl, true, any, inl, inr, Bool-cases, none, List, String, ℤ}
use go_kube_downscaler.Fault.{Result, err, invalid_resource}
use go_kube_downscaler.Text.{Text, codes, text_eq}
use go_kube_downscaler.Time.{Location}
use go_kube_downscaler.Scalable.Filter.{Listed}
use go_kube_downscaler.Scalable.Kinds
use go_kube_downscaler.Scalable.Kinds.{Kind}
use go_kube_downscaler.Client.{get_scaled_objects}
use go_kube_downscaler.Admission.{AdmissionMetrics, new_review_response}
use go_kube_downscaler.Admission.Mutation.{
  evaluate_external_scaling_condition, is_namespace_left_out, unless_external,
  evaluate_workload_mutation,
}
use go_kube_downscaler.Admission.Scaling.{Mutable, Handler, Lookups}

get_scaled_objects-invalid :
    {W : Type 0} (list : Kind → String → Result (List W)) (namespace : String)
    → get_scaled_objects list namespace ≡ err invalid_resource
unfolding get_scaled_objects Kinds.get_workloads
get_scaled_objects-invalid list namespace = refl

module _ {R P : Type 0} (ops : Mutable R P) (lookups : Lookups)
    (load_location : Text → Result Location) (now : ℤ) (h : Handler) where
  -- Where scaled objects are among the resources, the webhook patches no object at all: the client
  -- asks for a resource that is not in the table, so the check for scaled objects always fails.
  pub evaluate_workload_mutation-scaled_objects :
      (list : Kind → String → Result (List Listed)) (uid : Text) (w : R) (m : AdmissionMetrics)
      → ((namespace : String)
          → lookups.get_scaled_objects namespace ≡ get_scaled_objects list namespace)
      → any (λ resource. text_eq resource (codes "scaledobjects")) h.include_resources_set ≡ true
      → (evaluate_workload_mutation ops lookups load_location now h uid w m).1.patch ≡ none
  unfolding evaluate_workload_mutation evaluate_external_scaling_condition unless_external
      new_review_response
  evaluate_workload_mutation-scaled_objects list uid w m same included =
      elim (Bool-cases (
        is_namespace_left_out ops lookups load_location now h (ops.listed w).namespace
          h.include_namespaces)) [
            | inl y ↦ rw y refl
            | inr n ↦
                rw
                  (
                    n,
                    included,
                    same (ops.listed w).namespace,
                    get_scaled_objects-invalid list (ops.listed w).namespace,
                  )
                  refl
          ]
