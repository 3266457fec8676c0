-- ===== src/Admission/Mutation/Agreement.antt =====
-- The webhook and the main loop agree on how a workload is scaled down.
use go_kube_downscaler.Prelude.{◌≡◌, refl, sym, ap, ◌∙◌, ℕ, pos, ℤ, true, false, none, some}
use mathlib.Core.Path.{subst}
use go_kube_downscaler.Fault.{Result, ok, ok-injective}
use go_kube_downscaler.Text.{Text}
use go_kube_downscaler.Dict.{lookup}
use go_kube_downscaler.Time.{Location}
use go_kube_downscaler.Replicas.{Replicas}
use go_kube_downscaler.Values.{Scope, new_scope, ScopeEvaluation, scaling_down}
use go_kube_downscaler.Values.Decision.{get_current_scaling}
use go_kube_downscaler.Values.ScopeParser.{get_scope_from_annotations}
use go_kube_downscaler.Values.Query.{get_downscale_replicas, get_excluded, get_excluded_with_scope}
use go_kube_downscaler.Workload.{Workload, Api, Session}
use go_kube_downscaler.Downscaler.{Configuration}
use go_kube_downscaler.Downscaler.Scan.{SharedScopes, grace_of, scan_workload}
use go_kube_downscaler.Downscaler.Scan
use go_kube_downscaler.Downscaler.Accepted.{scan_workload-accepted}
use go_kube_downscaler.Admission.Mutation.{scopes_of, evaluate_workload_mutation}
use go_kube_downscaler.Admission.Mutation.Patches.{evaluate_workload_mutation-IsMutation}
use go_kube_downscaler.Admission.{AdmissionMetrics}
use go_kube_downscaler.Scalable.{ScalingSummary}
use go_kube_downscaler.Admission.Scaling.{Mutable, Handler, Lookups}
use go_kube_downscaler.Admission.Mutation.Ends.{IsMutation, IsConsidered, IsDifference}

module _ {R P C : Type 0} (ops : Mutable R P) (lookups : Lookups) (kind : Workload R)
    (api : Api R C) (config : Configuration) (load_location : Text → Result Location) (now : ℤ)
    (h : Handler) (shared : SharedScopes) where
  -- Both programs read the same workload, namespace and configuration.
  pub record AreAlike (w : R) : Type 0 where
    pub annotations : kind.get_annotations w ≡ ops.get_annotations w
    pub lowering : (replicas : Replicas) → kind.scale_down replicas w ≡ ops.scale_down replicas w
    pub copying : ops.copy w ≡ ok w
    pub default : shared.default ≡ h.scope_default
    pub cli : shared.cli ≡ h.scope_cli
    pub environment : shared.environment ≡ h.scope_env
    pub known :
        (namespace : Scope)
        → lookups.get_namespace_scope (ops.listed w).namespace ≡ ok namespace
        → lookup (kind.get_namespace w) shared.namespaces ≡ some namespace

  same_scopes :
      (w : R) (scope namespace : Scope)
      → AreAlike w
      → Scan.scopes_of shared scope namespace
        ≡ scopes_of ops lookups load_location now h scope namespace
  same_scopes w scope namespace alike = rw (alike.default, alike.cli, alike.environment) refl

  module _ (uid : Text) (w : R) (patch : Text) (alike : AreAlike w)
      (mutation : IsMutation ops lookups load_location now h uid w patch) where
    abbrev considered : IsConsidered ops lookups load_location now h uid w mutation.scopes
    considered = mutation.considered

    abbrev change : IsDifference ops lookups load_location now h uid w mutation.replicas patch
    change = mutation.change

    agreed_scopes : mutation.scopes ≡ Scan.scopes_of shared considered.scope considered.namespace
    agreed_scopes =
        considered.of_both ∙ sym (same_scopes w considered.scope considered.namespace alike)

    is_lowered : kind.scale_down mutation.replicas w ≡ ok (change.result, change.summary)
    is_lowered =
        alike.lowering mutation.replicas
        ∙ ap (ops.scale_down mutation.replicas) (ok-injective (sym alike.copying ∙ change.is_copy))
        ∙ change.is_lowered

    scan_workload-of_mutation :
        (s : Session R C) (grace : ScopeEvaluation) (retries : ℕ)
        → s.workload ≡ w
        → grace_of kind api config load_location now mutation.scopes w ≡ ok grace
        → grace.matched ≡ false
        → config.max_retries_on_conflict ≡ pos retries
        → config.dry_run ≡ false
        → change.summary.is_update_needed ≡ true
        → (api.update change.result s.cluster).1 ≡ none
        → (scan_workload kind api config load_location now shared s).0.workload ≡ change.result
    unfolding get_excluded
    scan_workload-of_mutation s grace retries e g out m live needed stored =
        scan_workload-accepted kind api config load_location now shared s considered.scope
          considered.namespace grace change.result retries
          (record {
            parsed =
                ap (λ v. get_scope_from_annotations load_location v new_scope)
                  (ap kind.get_annotations e ∙ alike.annotations)
                ∙ considered.parsed;
            known =
                ap (λ v. lookup (kind.get_namespace v) shared.namespaces) e
                ∙ alike.known considered.namespace considered.known;
            grace_known =
                subst
                  (λ scopes.
                    grace_of kind api config load_location now scopes s.workload ≡ ok grace)
                  agreed_scopes
                  (ap (grace_of kind api config load_location now mutation.scopes) e ∙ g);
            not_in_grace_period = out;
            not_excluded =
                subst (λ scopes. (get_excluded_with_scope now scopes scopes).matched ≡ false)
                  agreed_scopes considered.not_excluded;
            down =
                subst (λ scopes. (get_current_scaling now scopes).scaling ≡ scaling_down)
                  agreed_scopes mutation.to_scale_down;
          })
          m
          (record {
            replicas = mutation.replicas;
            summary = change.summary;
            target =
                subst (λ scopes. get_downscale_replicas scopes ≡ ok mutation.replicas) agreed_scopes
                  mutation.target;
            is_lowered = ap (kind.scale_down mutation.replicas) e ∙ is_lowered;
            update_needed = needed;
            not_dry = live;
            stored = stored;
          })

  -- The theorem for the outcome of the webhook as a mutation.
  agreement :
      (uid : Text) (w : R) (patch : Text) (scope namespace : Scope) (grace : ScopeEvaluation)
      (replicas : Replicas) (result : R) (summary : ScalingSummary) (retries : ℕ) (s : Session R C)
      → AreAlike w
      → IsMutation ops lookups load_location now h uid w patch
      → get_scope_from_annotations load_location (ops.get_annotations w) new_scope ≡ ok scope
      → lookups.get_namespace_scope (ops.listed w).namespace ≡ ok namespace
      → get_downscale_replicas (scopes_of ops lookups load_location now h scope namespace)
        ≡ ok replicas
      → ops.scale_down replicas w ≡ ok (result, summary)
      → summary.is_update_needed ≡ true
      → grace_of kind api config load_location now
          (scopes_of ops lookups load_location now h scope namespace)
          w
        ≡ ok grace
      → grace.matched ≡ false
      → s.workload ≡ w
      → config.max_retries_on_conflict ≡ pos retries
      → config.dry_run ≡ false
      → (api.update result s.cluster).1 ≡ none
      → ((difference : P) × (ops.compare w result ≡ ok difference)
          × (ops.marshal difference ≡ ok patch))
        × ((scan_workload kind api config load_location now shared s).0.workload ≡ result)
  agreement uid w patch scope namespace grace replicas result summary retries s alike mutation p k t
        l needed g out e m live stored =
      let considered = mutation.considered in
      let change = mutation.change in
      let here : mutation.scopes ≡ scopes_of ops lookups load_location now h scope namespace =
        considered.of_both
        ∙ rw (ok-injective (sym considered.parsed ∙ p), ok-injective (sym considered.known ∙ k))
            refl in
      let target : mutation.replicas ≡ replicas =
        ok-injective (sym mutation.target ∙ ap get_downscale_replicas here ∙ t) in
      let lowered : (change.result, change.summary) ≡ (result, summary) = ok-injective (
        sym change.is_lowered
        ∙ ap (ops.scale_down mutation.replicas) (ok-injective (sym change.is_copy ∙ alike.copying))
        ∙ ap (λ r. ops.scale_down r w) target
        ∙ l) in
      let there : change.result ≡ result = ap (λ (x : R × ScalingSummary). x.0) lowered in
      (
        (change.difference, ap (ops.compare w) (sym there) ∙ change.is_compared, change.is_written),
        scan_workload-of_mutation uid w patch alike mutation s grace retries e
              (ap (λ x. grace_of kind api config load_location now x w) here ∙ g) out m live
              (ap (λ (x : R × ScalingSummary). x.1.is_update_needed) lowered ∙ needed)
              (ap (λ x. (api.update x s.cluster).1) there ∙ stored)
            ∙ there,
      )

  -- Where the webhook answers with a patch, a scan of the same workload by the main loop leaves in
  -- memory the object that the patch leads to: the patch is what is written of the difference
  -- between the workload and that object. The object is the workload scaled down to the replicas of
  -- the scopes that its annotations, its namespace and the handler give. Both programs are alike in
  -- what they read, scaling down needs an update, the workload is out of its grace period, which
  -- the webhook does not ask for, the run of the main loop is not dry, its retries are no negative
  -- number, and the API accepts the update.
  pub scan_workload-mutation :
      (uid : Text) (w : R) (patch : Text) (counters : AdmissionMetrics) (scope namespace : Scope)
      (grace : ScopeEvaluation) (replicas : Replicas) (result : R) (summary : ScalingSummary)
      (retries : ℕ) (s : Session R C)
      → AreAlike w
      → (evaluate_workload_mutation ops lookups load_location now h uid w counters).1.patch
        ≡ some patch
      → get_scope_from_annotations load_location (ops.get_annotations w) new_scope ≡ ok scope
      → lookups.get_namespace_scope (ops.listed w).namespace ≡ ok namespace
      → get_downscale_replicas (scopes_of ops lookups load_location now h scope namespace)
        ≡ ok replicas
      → ops.scale_down replicas w ≡ ok (result, summary)
      → summary.is_update_needed ≡ true
      → grace_of kind api config load_location now
          (scopes_of ops lookups load_location now h scope namespace)
          w
        ≡ ok grace
      → grace.matched ≡ false
      → s.workload ≡ w
      → config.max_retries_on_conflict ≡ pos retries
      → config.dry_run ≡ false
      → (api.update result s.cluster).1 ≡ none
      → ((difference : P) × (ops.compare w result ≡ ok difference)
          × (ops.marshal difference ≡ ok patch))
        × ((scan_workload kind api config load_location now shared s).0.workload ≡ result)
  scan_workload-mutation uid w patch counters scope namespace grace replicas result summary retries
        s alike q =
      agreement uid w patch scope namespace grace replicas result summary retries s alike (
        evaluate_workload_mutation-IsMutation ops lookups load_location now h uid w counters patch
          q)
