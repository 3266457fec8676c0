-- ===== src/Admission/Mutation/Ends.antt =====
-- What is known where `evaluateWorkloadMutation` ends.
use go_kube_downscaler.Prelude.{
  ◌≡◌, ◌⊎◌, Bool, true, false, Option, none, some, List, [], ◌∷◌, String, ℤ, any, All,
}
use go_kube_downscaler.Fault.{Fault, Result, ok, err, scaling_invalid}
use go_kube_downscaler.Text.{Text, codes, text_eq}
use go_kube_downscaler.Replicas.{Replicas}
use go_kube_downscaler.Scalable.{ScalingSummary}
use go_kube_downscaler.Scalable.Filter.{Listed}
use go_kube_downscaler.Scalable.Filter.Selection.{IsScannable, Targets}
use go_kube_downscaler.Time.{Location}
use go_kube_downscaler.Values.{Scope, Scopes, new_scope, scaling_down, scaling_up, scaling_multiple}
use go_kube_downscaler.Values.Query.{get_downscale_replicas, get_excluded}
use go_kube_downscaler.Values.Decision.{get_current_scaling}
use go_kube_downscaler.Values.ScopeParser.{get_scope_from_annotations}
use go_kube_downscaler.Admission.{AdmissionMetrics, new_patch_review_response}
use go_kube_downscaler.Admission.Mutation.{is_namespace_left_out, scopes_of}
use go_kube_downscaler.Admission.Scaling.{Mutable, Handler, Lookups, Outcome, review, count}

module _ {R P : Type 0} (ops : Mutable R P) (lookups : Lookups)
    (load_location : Text → Result Location) (now : ℤ) (h : Handler) (uid : Text) (w : R) where
  abbrev pub name_space : String
  name_space = (ops.listed w).namespace

  -- The scaled objects, which are asked for only where they are among the resources, could be
  -- listed, and none of them targets the workload.
  abbrev pub Untargeted : Type 0
  Untargeted =
      (any (λ k. text_eq k (codes "scaledobjects")) h.include_resources_set ≡ false)
      ⊎ ((scaled_objects : List Listed) × (lookups.get_scaled_objects name_space
            ≡ ok scaled_objects)
          × All (λ s. ¬ Targets (ops.listed w) s) scaled_objects)

  -- The workload gets past every exclusion, with these scopes.
  pub record IsConsidered (scopes : Scopes) : Type 0 where
    pub scope : Scope
    pub namespace : Scope
    pub included :
        is_namespace_left_out ops lookups load_location now h name_space h.include_namespaces
        ≡ false
    pub not_external : Untargeted
    pub kept :
        IsScannable h.include_labels h.exclude_namespaces h.exclude_workloads
          (ops.listed w ∷ [])
          (ops.listed w)
    pub parsed :
        get_scope_from_annotations load_location (ops.get_annotations w) new_scope ≡ ok scope
    pub known : lookups.get_namespace_scope name_space ≡ ok namespace
    pub of_both : scopes ≡ scopes_of ops lookups load_location now h scope namespace
    pub not_excluded : get_excluded now scopes scopes ≡ false

  -- The patch is the difference to a copy that is scaled down to the replicas of the scopes.
  pub record IsDifference (replicas : Replicas) (patch : Text) : Type 0 where
    pub copy : R
    pub result : R
    pub summary : ScalingSummary
    pub difference : P
    pub is_copy : ops.copy w ≡ ok copy
    pub is_lowered : ops.scale_down replicas copy ≡ ok (result, summary)
    pub is_compared : ops.compare w result ≡ ok difference
    pub is_written : ops.marshal difference ≡ ok patch
    pub not_dry : h.dry_run ≡ false

  pub record IsMutation (patch : Text) : Type 0 where
    pub scopes : Scopes
    pub replicas : Replicas
    pub considered : IsConsidered scopes
    pub to_scale_down : (get_current_scaling now scopes).scaling ≡ scaling_down
    pub target : get_downscale_replicas scopes ≡ ok replicas
    pub change : IsDifference replicas patch

  pub record IsScaledUp : Type 0 where
    pub scopes : Scopes
    pub considered : IsConsidered scopes
    pub to_scale_up : (get_current_scaling now scopes).scaling ≡ scaling_up

  -- The errors that are not counted as such.
  pub data IsUnaccounted (e : Option Fault) : Type 0 where
    unlisted :
        (f : Fault) → e ≡ some f → lookups.get_scaled_objects name_space ≡ err f → IsUnaccounted e
    ambiguous :
        (scopes : Scopes)
        → IsConsidered scopes
        → e ≡ some scaling_invalid
        → (get_current_scaling now scopes).scaling ≡ scaling_multiple
        → IsUnaccounted e
    without_target :
        (scopes : Scopes) (f : Fault)
        → IsConsidered scopes
        → (get_current_scaling now scopes).scaling ≡ scaling_down
        → e ≡ some f
        → get_downscale_replicas scopes ≡ err f
        → IsUnaccounted e
    not_copied : (f : Fault) → e ≡ some f → ops.copy w ≡ err f → IsUnaccounted e

  -- Whether an error is counted, with the error.
  pub data Accounts : Bool → Option Fault → Type 0 where
    without_error : Accounts false none
    with_error : (f : Fault) → Accounts true (some f)
    not_accounted : (e : Option Fault) → IsUnaccounted e → Accounts false e

  module _ (m : AdmissionMetrics) (End : Outcome → Type 0) where
    -- What has to be shown of the ends: a review with a reason that is counted as not mutated, a
    -- patch, and the review of a workload that is to scale up, which is not counted.
    pub record Ends : Type 0 where
      pub reviewed :
          (reason : Text) (failed warned : Bool) (e : Option Fault)
          → Accounts failed e
          → End (count h uid name_space false failed m, review h uid name_space reason warned, e)
      pub mutated :
          (patch : Text)
          → IsMutation patch
          → End (count h uid name_space true false m, new_patch_review_response uid patch, none)
      pub ignored :
          (reason : Text) → IsScaledUp → End (m, review h uid name_space reason false, none)
