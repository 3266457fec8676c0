-- ===== src/Admission/Mutation/Patches.antt =====
-- Which objects the webhook changes.
use go_kube_downscaler.Prelude.{◌≡◌, ap, Option, none, some, ℤ}
use mathlib.Core.Path.{subst}
use go_kube_downscaler.Fault.{Result}
use go_kube_downscaler.Text.{Text}
use go_kube_downscaler.Time.{Location}
use go_kube_downscaler.Admission.{AdmissionMetrics, new_review_response, new_patch_review_response}
use go_kube_downscaler.Admission.Mutation.{evaluate_workload_mutation}
use go_kube_downscaler.Admission.Scaling.{Mutable, Handler, Lookups, Outcome}
use go_kube_downscaler.Admission.Mutation.Ends.{Ends, IsMutation}
use go_kube_downscaler.Admission.Mutation.Branches.{evaluate_workload_mutation_ends}

abbrev text_or : Text → Option Text → Text
text_or d none = d
text_or d (some t) = t

module _ {R P : Type 0} (ops : Mutable R P) (lookups : Lookups)
    (load_location : Text → Result Location) (now : ℤ) (h : Handler) where
  -- A patch of the outcome is a mutation.
  abbrev IsJustified : Text → R → Outcome → Type 0
  IsJustified uid w o =
      (patch : Text)
      → o.1.patch ≡ some patch
      → IsMutation ops lookups load_location now h uid w patch

  Ends-IsJustified :
      (uid : Text) (w : R) (m : AdmissionMetrics)
      → Ends ops lookups load_location now h uid w m (IsJustified uid w)
  unfolding new_review_response new_patch_review_response
  Ends-IsJustified uid w m = record {
    reviewed = λ reason failed warned e a patch q. cc q;
    mutated = λ patch i p q.
        subst (IsMutation ops lookups load_location now h uid w) (ap (text_or patch) q) i;
    ignored = λ reason i patch q. cc q;
  }

  -- Where the webhook patches an object, the run is not dry, the object is in a namespace that is
  -- included, the filters keep it, and if "scaledobjects" is among the included resources, the
  -- scaled objects of its namespace could be listed and none of them targets it; its annotations
  -- and those of its namespace are valid, its scopes do not exclude it and decide to scale it down,
  -- and the patch is the difference between the object and a copy of it that is scaled down to the
  -- replicas of its scopes.
  pub evaluate_workload_mutation-IsMutation :
      (uid : Text) (w : R) (m : AdmissionMetrics) (patch : Text)
      → (evaluate_workload_mutation ops lookups load_location now h uid w m).1.patch ≡ some patch
      → IsMutation ops lookups load_location now h uid w patch
  evaluate_workload_mutation-IsMutation uid w m =
      evaluate_workload_mutation_ends ops lookups load_location now h uid w m (IsJustified uid w)
        (Ends-IsJustified uid w m)
