-- ===== src/Admission/Mutation/Branches.antt =====
-- The branches of `evaluateWorkloadMutation`, with what is known where it gets there.
use go_kube_downscaler.Prelude.{
  ◌≡◌, ◌≢◌, refl, Bool, true, false, inl, inr, Bool-cases, Option, none, some, List, [], ◌∷◌,
  String, ℤ, any,
}
use go_kube_downscaler.Fault.{Fault, Result, ok, err}
use go_kube_downscaler.Text.{Text, codes, text_eq}
use go_kube_downscaler.Scalable.Filter.{
  Listed, is_externally_scaled, get_externally_scaled, filter_excluded,
}
use go_kube_downscaler.Scalable.Filter.Selection.{filter_excluded_singleton, untargeted_of}
use go_kube_downscaler.Time.{Location}
use go_kube_downscaler.Values.{Scope, Scopes, new_scope}
use go_kube_downscaler.Values.Query.{get_excluded}
use go_kube_downscaler.Values.ScopeParser.{get_scope_from_annotations}
use go_kube_downscaler.Admission.{AdmissionMetrics, AdmissionReview}
use go_kube_downscaler.Admission.Mutation.Ends.{
  IsConsidered, Untargeted, Ends, Accounts, without_error, with_error, not_accounted, unlisted,
}
use go_kube_downscaler.Admission.Mutation.{
  externally_scaled, evaluate_external_scaling_condition, is_namespace_left_out, scopes_of,
  unless_excluded, with_namespace_scope, with_scope, unless_filtered, unless_external,
  evaluate_workload_mutation,
}
use go_kube_downscaler.Admission.Scaling.{Mutable, Handler, Lookups, Outcome, review}
use go_kube_downscaler.Admission.Mutation.Lowering.{scaling_end}

module _ {R P : Type 0} (ops : Mutable R P) (lookups : Lookups)
    (load_location : Text → Result Location) (now : ℤ) (h : Handler) (uid : Text) (w : R) where
  abbrev of_workload : String
  of_workload = (ops.listed w).namespace

  abbrev Considered : Scopes → Type 0
  Considered scopes = IsConsidered ops lookups load_location now h uid w scopes

  -- What the check of the scaled objects tells.
  pub data Externals : Option (AdmissionReview × Option Fault) → Type 0 where
    external :
        (reason : Text) (warned : Bool) (e : Option Fault)
        → Accounts ops lookups load_location now h uid w false e
        → Externals (some (review h uid of_workload reason warned, e))
    not_external : Untargeted ops lookups load_location now h uid w → Externals none

  externally_scaled-Externals :
      (o : Result (List Listed))
      → lookups.get_scaled_objects of_workload ≡ o
      → Externals (externally_scaled ops lookups load_location now h uid (ops.listed w) o)
  externally_scaled-Externals (err f) q =
      external _ true (some f) (not_accounted (some f) (unlisted f refl q))
  externally_scaled-Externals (ok scaled_objects) q =
      elim (Bool-cases
        (is_externally_scaled (ops.listed w) (get_externally_scaled scaled_objects))) [
          | inl y ↦ rw y (external _ false none without_error)
          | inr n ↦ rw n (
              not_external (inr (scaled_objects, q, untargeted_of (ops.listed w) scaled_objects n)))
        ]

  condition-Externals :
      Externals
        (evaluate_external_scaling_condition ops lookups load_location now h uid (ops.listed w))
  unfolding evaluate_external_scaling_condition
  condition-Externals =
      elim (Bool-cases (any (λ k. text_eq k (codes "scaledobjects")) h.include_resources_set)) [
        | inl y ↦ rw y (externally_scaled-Externals (lookups.get_scaled_objects of_workload) refl)
        | inr n ↦ rw n (not_external (inl n))
      ]

  module _ (m : AdmissionMetrics) (End : Outcome → Type 0)
      (ends : Ends ops lookups load_location now h uid w m End) where
    excluded_end :
        (scopes : Scopes)
        → (get_excluded now scopes scopes ≡ false → Considered scopes)
        → End (unless_excluded ops lookups load_location now h uid w scopes m)
    unfolding unless_excluded
    excluded_end scopes k = elim (Bool-cases (get_excluded now scopes scopes)) [
      | inl y ↦ rw y (ends.reviewed _ false false none without_error)
      | inr n ↦
          rw n (scaling_end ops lookups load_location now h uid w m End ends scopes _ refl (k n))
    ]

    namespace_end :
        (scope : Scope) (r : Result Scope)
        → ((namespace : Scope) (scopes : Scopes)
            → r ≡ ok namespace
            → scopes ≡ scopes_of ops lookups load_location now h scope namespace
            → get_excluded now scopes scopes ≡ false
            → Considered scopes)
        → End (with_namespace_scope ops lookups load_location now h uid w scope r m)
    unfolding with_namespace_scope
    namespace_end scope (err e) k = ends.reviewed _ true true (some e) (with_error e)
    namespace_end scope (ok namespace) k =
        excluded_end (scopes_of ops lookups load_location now h scope namespace)
          (λ n. k namespace _ refl refl n)

    scope_end :
        (r : Result Scope)
        → ((scope namespace : Scope) (scopes : Scopes)
            → r ≡ ok scope
            → lookups.get_namespace_scope of_workload ≡ ok namespace
            → scopes ≡ scopes_of ops lookups load_location now h scope namespace
            → get_excluded now scopes scopes ≡ false
            → Considered scopes)
        → End (with_scope ops lookups load_location now h uid w r m)
    unfolding with_scope
    scope_end (err e) k = ends.reviewed _ true true (some e) (with_error e)
    scope_end (ok scope) k =
        namespace_end scope (lookups.get_namespace_scope of_workload)
          (λ namespace scopes a b n. k scope namespace scopes refl a b n)

    filtered_end :
        (ws : List R)
        → (ws ≢ []
            → (scope namespace : Scope) (scopes : Scopes)
            → get_scope_from_annotations load_location (ops.get_annotations w) new_scope ≡ ok scope
            → lookups.get_namespace_scope of_workload ≡ ok namespace
            → scopes ≡ scopes_of ops lookups load_location now h scope namespace
            → get_excluded now scopes scopes ≡ false
            → Considered scopes)
        → End (unless_filtered ops lookups load_location now h uid w ws m)
    unfolding unless_filtered
    filtered_end [] k = ends.reviewed _ false false none without_error
    filtered_end (v ∷ vs) k =
        scope_end (get_scope_from_annotations load_location (ops.get_annotations w) new_scope)
          (k (λ e. cc e))

    external_end :
        (o : Option (AdmissionReview × Option Fault))
        → Externals o
        → is_namespace_left_out ops lookups load_location now h of_workload h.include_namespaces
          ≡ false
        → End (unless_external ops lookups load_location now h uid w o m)
    unfolding unless_external
    external_end o (external reason warned e a) i = ends.reviewed reason false warned e a
    external_end o (not_external x) i =
        filtered_end
          (filter_excluded ops.listed (w ∷ []) h.include_labels h.exclude_namespaces
            h.exclude_workloads none).0
          (λ kept scope namespace scopes a b c d. record {
            scope = scope;
            namespace = namespace;
            included = i;
            not_external = x;
            kept =
                filter_excluded_singleton h.include_labels h.exclude_namespaces h.exclude_workloads
                  ops.listed w kept;
            parsed = a;
            known = b;
            of_both = c;
            not_excluded = d;
          })

    -- The induction over the branches of `evaluateWorkloadMutation`.
    pub evaluate_workload_mutation_ends :
        End (evaluate_workload_mutation ops lookups load_location now h uid w m)
    unfolding evaluate_workload_mutation
    evaluate_workload_mutation_ends =
        elim (Bool-cases (
          is_namespace_left_out ops lookups load_location now h of_workload h.include_namespaces)) [
            | inl y ↦ rw y (ends.reviewed _ false false none without_error)
            | inr n ↦ rw n (external_end _ condition-Externals n)
          ]
