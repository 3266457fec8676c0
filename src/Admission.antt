-- ===== src/Admission.antt =====
-- internal/api/kubernetes/admission/admissionHandler.go and
-- internal/pkg/metrics/admissionMetrics.go: the responses of the webhook and its counters.
--
-- The writing of a response to the network is left out. `json.Unmarshal` is a parameter.
pub mod Scaling
pub mod Mutation
use go_kube_downscaler.Prelude.{
  ℕ, ◌+◌, Bool, true, false, ◌||◌, Option, none, some, List, [], ◌∷◌, ◌++◌, String, if◌then◌else◌,
}
use go_kube_downscaler.Fault.{
  Result, ok, err, ◌>>=◌, content_type, failed_to_read_body, request_body_is_empty,
  failed_to_parse_request, request_field_is_nil,
}
use go_kube_downscaler.Text.{Text, codes, text_eq}
use go_kube_downscaler.Dict.{Dict, lookup, insert}

-- The counter of a namespace for each value of the label `result`.
pub record Results : Type 0 where
  pub mutated : ℕ
  pub not_mutated : ℕ
  pub errors : ℕ

-- `validateWorkloadAdmissionRequestsTotal`; `none` is a nil pointer to the metrics.
abbrev pub AdmissionMetrics : Type 0
AdmissionMetrics = Option (Dict Results)

abbrev pub or_zero : Option Results → Results
or_zero none = record { mutated = 0; not_mutated = 0; errors = 0 }
or_zero (some r) = r

abbrev pub one_if : Bool → ℕ
one_if true = 1
one_if false = 0

abbrev pub negated : Bool → Bool
negated true = false
negated false = true

-- An error is counted besides the result, not in place of it.
abbrev pub counted : Bool → Bool → Results → Results
counted mutated failed r = record {
  mutated = r.mutated + one_if mutated;
  not_mutated = r.not_mutated + one_if (negated mutated);
  errors = r.errors + one_if failed;
}

unfoldable pub update_requests_total :
    Bool → Bool → Bool → String → AdmissionMetrics → AdmissionMetrics
update_requests_total enabled mutated failed namespace none = none
update_requests_total enabled mutated failed namespace (some m) =
    if enabled
    then some (insert namespace (counted mutated failed (or_zero (lookup namespace m))) m)
    else some m

-- `AdmissionReview` with its `Response`; `code` and `message` are those of `Result`.
pub record AdmissionReview : Type 0 where
  pub uid : Text
  pub allowed : Bool
  pub code : Option ℕ
  pub message : Option Text
  pub warnings : List Text
  pub patch : Option Text

unfoldable pub new_review_response : Text → Bool → ℕ → Text → Bool → Bool → AdmissionReview
new_review_response uid allowed http_code reason warn dry_run =
    let reason' = if dry_run then reason ++ codes " (dry-run mode)" else reason in
    record {
      uid = uid;
      allowed = allowed || dry_run;
      code = some http_code;
      message = some reason';
      warnings = if warn then reason' ∷ [] else [];
      patch = none;
    }

unfoldable pub new_patch_review_response : Text → Text → AdmissionReview
new_patch_review_response uid patch = record {
  uid = uid;
  allowed = true;
  code = none;
  message = none;
  warnings = [];
  patch = some patch;
}

-- The `Request` of a review, of what the handler reads.
pub record AdmissionRequest : Type 0 where
  pub uid : Text
  pub kind : Text
  pub raw : Text

pub record HttpRequest : Type 0 where
  pub content_type : Text
  pub body : Result Text

abbrev checked : Option AdmissionRequest → Result AdmissionRequest
checked none = err request_field_is_nil
checked (some request) = ok request

abbrev unless_empty : (Text → Option (Option AdmissionRequest)) → Text → Result AdmissionRequest
unless_empty unmarshal [] = err request_body_is_empty
unless_empty unmarshal (c ∷ body) = elim (unmarshal (c ∷ body)) [
  | none ↦ err failed_to_parse_request
  | some request ↦ checked request
]

abbrev readable : (Text → Option (Option AdmissionRequest)) → Result Text → Result AdmissionRequest
readable unmarshal (err e) = err failed_to_read_body
readable unmarshal (ok body) = unless_empty unmarshal body

-- `unmarshal` gives the field `Request` of the review, or nothing where the body is no review.
unfoldable pub parse_admission_review_from_request :
    (Text → Option (Option AdmissionRequest)) → HttpRequest → Result AdmissionRequest
unfolding text_eq
parse_admission_review_from_request unmarshal request =
    if text_eq request.content_type (codes "application/json")
    then readable unmarshal request.body
    else err (content_type request.content_type)
