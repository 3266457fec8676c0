-- ===== src/Admission/Mutation/Allowed.antt =====
-- That the webhook lets every object through.
use go_kube_downscaler.Prelude.{◌≡◌, refl, true, Option, ℤ}
use go_kube_downscaler.Fault.{Result, ok, err}
use go_kube_downscaler.Text.{Text, to_lower}
use go_kube_downscaler.Time.{Location}
use go_kube_downscaler.Admission.{
  AdmissionMetrics, AdmissionReview, AdmissionRequest, HttpRequest, new_review_response,
  new_patch_review_response, parse_admission_review_from_request,
}
use go_kube_downscaler.Admission.Mutation.{
  evaluate_workload_mutation, Reply, bad_request, review_of, handle_workload, handle_request,
  handle_workload_mutation,
}
use go_kube_downscaler.Admission.Scaling.{Mutable, Handler, Lookups, Outcome}
use go_kube_downscaler.Admission.Mutation.Ends.{Ends}
use go_kube_downscaler.Admission.Mutation.Branches.{evaluate_workload_mutation_ends}

-- The object of the request is let through.
abbrev pub IsAllowed : Text → AdmissionReview → Type 0
IsAllowed uid r = (r.allowed ≡ true) × (r.uid ≡ uid)

module _ {R P : Type 0} (ops : Mutable R P) (lookups : Lookups)
    (load_location : Text → Result Location) (now : ℤ) (h : Handler) where
  Ends-IsAllowed :
      (uid : Text) (w : R) (m : AdmissionMetrics)
      → Ends ops lookups load_location now h uid w m (λ (o : Outcome). IsAllowed uid o.1)
  unfolding new_review_response new_patch_review_response
  Ends-IsAllowed uid w m = record {
    reviewed = λ reason failed warned e a. (refl, refl);
    mutated = λ patch i. (refl, refl);
    ignored = λ reason i. (refl, refl);
  }

  evaluate_workload_mutation-IsAllowed :
      (uid : Text) (w : R) (m : AdmissionMetrics)
      → IsAllowed uid (evaluate_workload_mutation ops lookups load_location now h uid w m).1
  evaluate_workload_mutation-IsAllowed uid w m =
      evaluate_workload_mutation_ends ops lookups load_location now h uid w m
        (λ (o : Outcome). IsAllowed uid o.1) (Ends-IsAllowed uid w m)

  -- A review that is no review is answered by a bad request, and any other is allowed.
  abbrev pub Answers : Result AdmissionRequest → Reply → Type 0
  Answers (err e) reply = reply ≡ bad_request e
  Answers (ok request) reply =
      (r : AdmissionReview) × (reply ≡ review_of r) × IsAllowed request.uid r

  workload-Answers :
      (request : AdmissionRequest) (r : Result R) (m : AdmissionMetrics)
      → Answers (ok request) (handle_workload ops lookups load_location now h request.uid r m).1
  unfolding handle_workload new_review_response
  workload-Answers request (err e) m = (_, refl, (refl, refl))
  workload-Answers request (ok w) m =
      (_, refl, evaluate_workload_mutation-IsAllowed request.uid w m)

  request-Answers :
      (parse : Text → Text → Result R) (r : Result AdmissionRequest) (m : AdmissionMetrics)
      → Answers r (handle_request ops lookups load_location now h parse r m).1
  unfolding handle_request
  request-Answers parse (err e) m = refl
  request-Answers parse (ok request) m =
      workload-Answers request (parse (to_lower request.kind) request.raw) m

  -- A request that holds an admission review is answered by a review of the same UID that allows
  -- the object, whatever the exclusions, the scopes, the API and the objects are, and every other
  -- request by a bad request with the error of the parsing.
  pub handle_workload_mutation-Answers :
      (unmarshal : Text → Option (Option AdmissionRequest)) (parse : Text → Text → Result R)
      (request : HttpRequest) (m : AdmissionMetrics)
      → Answers
          (parse_admission_review_from_request unmarshal request)
          (handle_workload_mutation ops lookups load_location now h unmarshal parse request m).1
  unfolding handle_workload_mutation
  handle_workload_mutation-Answers unmarshal parse request m =
      request-Answers parse (parse_admission_review_from_request unmarshal request) m
