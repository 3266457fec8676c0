-- ===== src/Downscaler/Accepted.antt =====
-- A scan whose update the API accepts.
use go_kube_downscaler.Prelude.{
  ◌≡◌, refl, ap, ◌∙◌, ℕ, suc, ◌+ℤ◌, pos, pos_part, ℤ, true, false, inl, inr, Bool-cases, Option,
  none, some, List, arith,
}
use go_kube_downscaler.Fault.{Fault, Result, ok, err}
use go_kube_downscaler.Text.{Text}
use go_kube_downscaler.Dict.{lookup}
use go_kube_downscaler.Time.{Location}
use go_kube_downscaler.Replicas.{Replicas}
use go_kube_downscaler.Scalable.{ScalingSummary}
use go_kube_downscaler.Values.{
  Scope, Scopes, new_scope, scaling_down, ScalingDecision, ScopeEvaluation,
}
use go_kube_downscaler.Values.Query.{
  get_downscale_replicas, get_excluded_with_scope, get_scale_children,
}
use go_kube_downscaler.Values.Decision.{get_current_scaling}
use go_kube_downscaler.Values.ScopeParser.{get_scope_from_annotations}
use go_kube_downscaler.Workload.{
  Workload, Api, Session, updated, store_downscaled, downscale_workload,
}
use go_kube_downscaler.Downscaler.{
  Configuration, downscaled, downscale_to, scale_workload, after_attempt, attempts, attempt_scaling,
}
use go_kube_downscaler.Downscaler.Scan.{
  SharedScopes, scopes_of, scale_children, then_children, is_skipped, decision_of, unless_excluded,
  unless_in_grace_period, grace_of, in_namespace, with_scope, scan_workload,
}
use go_kube_downscaler.Downscaler.Scan.Guards.{decision_of-excluded}

attempts_of : (n : ℕ) → pos_part (pos n +ℤ pos 1) ≡ suc n
unfolding ◌+ℤ◌
attempts_of n = ground arith

module _ {R C : Type 0} (kind : Workload R) (api : Api R C) (config : Configuration) where
  -- Scaling down gives this object, which the API stores.
  pub record IsAccepted (scopes : Scopes) (s : Session R C) (result : R) : Type 0 where
    pub replicas : Replicas
    pub summary : ScalingSummary
    pub target : get_downscale_replicas scopes ≡ ok replicas
    pub is_lowered : kind.scale_down replicas s.workload ≡ ok (result, summary)
    pub update_needed : summary.is_update_needed ≡ true
    pub not_dry : config.dry_run ≡ false
    pub stored : (api.update result s.cluster).1 ≡ none

  -- The session has this workload in memory, and the cluster has stored it.
  abbrev pub Holds : R → Session R C → Session R C × Option Fault → Type 0
  Holds result s r =
      (r.1 ≡ none) × (r.0.workload ≡ result) × (r.0.cluster ≡ (api.update result s.cluster).0)

  updated-stored {ℓ} :
      {A : Type ℓ} (w : R) (value : A) (r : C × Option Fault) (s : Session R C)
      → r.1 ≡ none
      → updated kind api config.dry_run w value r s
        ≡ (record s { workload = w; cluster = r.0 }, ok value)
  updated-stored w value (c, none) s e = refl
  updated-stored w value (c, some f) s e = cc e

  scale_workload-Holds :
      (scopes : Scopes) (s : Session R C) (result : R)
      → IsAccepted scopes s result
      → Holds result s (scale_workload kind api config scaling_down scopes s)
  unfolding scale_workload downscale_to downscale_workload store_downscaled downscaled
  scale_workload-Holds scopes s result a =
      rw
        (
          a.target,
          a.is_lowered,
          a.update_needed,
          a.not_dry,
          updated-stored result a.summary.saved_resources (api.update result s.cluster) s a.stored,
        )
        (refl, refl, refl)

  after_attempt-Holds :
      (result : R) (s : Session R C) (o : Session R C × Option Fault)
      (next : Session R C → Session R C × Option Fault)
      → Holds result s o
      → Holds result s (after_attempt kind api config o next)
  unfolding after_attempt
  after_attempt-Holds result s (t, none) next h = h
  after_attempt-Holds result s (t, some e) next h = cc (h.0)

  -- The first attempt is the last one.
  attempt_scaling-Holds :
      (decision : ScalingDecision) (scopes : Scopes) (s : Session R C) (result : R) (retries : ℕ)
      → config.max_retries_on_conflict ≡ pos retries
      → decision.scaling ≡ scaling_down
      → IsAccepted scopes s result
      → Holds result s (attempt_scaling kind api config decision scopes s)
  unfolding attempt_scaling attempts
  attempt_scaling-Holds decision scopes s result retries m d a =
      rw (ap (λ z. pos_part (z +ℤ pos 1)) m ∙ attempts_of retries, d)
        (after_attempt-Holds result s (scale_workload kind api config scaling_down scopes s)
          (attempts kind api config retries scaling_down scopes)
          (scale_workload-Holds scopes s result a))

  scale_children-workload :
      (load_location : Text → Result Location) (now : ℤ) (decision : ScalingDecision)
      (scopes : Scopes) (r : C × Result (List R)) (s : Session R C)
      → (scale_children kind api config load_location now decision scopes r s).0.workload
        ≡ s.workload
  unfolding scale_children
  scale_children-workload load_location now decision scopes (c, err e) s = refl
  scale_children-workload load_location now decision scopes (c, ok ws) s = refl

  then_children-workload :
      (load_location : Text → Result Location) (now : ℤ) (decision : ScalingDecision)
      (scopes : Scopes) (o : Session R C × Option Fault)
      → (then_children kind api config load_location now decision scopes o).0.workload
        ≡ o.0.workload
  unfolding then_children
  then_children-workload load_location now decision scopes (s, some e) = refl
  then_children-workload load_location now decision scopes (s, none) =
      elim (Bool-cases (get_scale_children scopes)) [
        | inl y ↦ rw y (
            scale_children-workload load_location now decision scopes
              (api.get_children s.workload s.cluster) s)
        | inr n ↦ rw n refl
      ]

module _ {R C : Type 0} (kind : Workload R) (api : Api R C) (config : Configuration)
    (load_location : Text → Result Location) (now : ℤ) (shared : SharedScopes) where
  -- A scan has valid scopes that neither shelter nor exclude the workload, and decide to scale it
  -- down.
  pub record GoesDown (s : Session R C) (scope namespace : Scope) (grace : ScopeEvaluation)
      : Type 0 where
    pub parsed :
        get_scope_from_annotations load_location (kind.get_annotations s.workload) new_scope
        ≡ ok scope
    pub known : lookup (kind.get_namespace s.workload) shared.namespaces ≡ some namespace
    pub grace_known :
        grace_of kind api config load_location now (scopes_of shared scope namespace) s.workload
        ≡ ok grace
    pub not_in_grace_period : grace.matched ≡ false
    pub not_excluded :
        (get_excluded_with_scope now
          (scopes_of shared scope namespace)
          (scopes_of shared scope namespace)).matched
        ≡ false
    pub down : (get_current_scaling now (scopes_of shared scope namespace)).scaling ≡ scaling_down

  not_skipped :
      (scopes : Scopes)
      → (get_excluded_with_scope now scopes scopes).matched ≡ false
      → is_skipped kind api config load_location now scopes ≡ false
  unfolding is_skipped
  not_skipped scopes e = rw e refl

  scan_workload-passes :
      (s : Session R C) (scope namespace : Scope) (grace : ScopeEvaluation)
      → GoesDown s scope namespace grace
      → scan_workload kind api config load_location now shared s
        ≡ then_children kind api config load_location now
            (decision_of kind api config load_location now (scopes_of shared scope namespace))
            (scopes_of shared scope namespace)
            (attempt_scaling kind api config
              (decision_of kind api config load_location now (scopes_of shared scope namespace))
              (scopes_of shared scope namespace)
              s)
  unfolding scan_workload with_scope in_namespace unless_in_grace_period unless_excluded
  scan_workload-passes s scope namespace grace g =
      rw
        (
          g.parsed,
          g.known,
          g.grace_known,
          g.not_in_grace_period,
          not_skipped (scopes_of shared scope namespace) g.not_excluded,
        )
        refl

  -- A scan that goes down leaves the object that scaling down gives, where the API stores it.
  pub scan_workload-accepted :
      (s : Session R C) (scope namespace : Scope) (grace : ScopeEvaluation) (result : R)
      (retries : ℕ)
      → GoesDown s scope namespace grace
      → config.max_retries_on_conflict ≡ pos retries
      → IsAccepted kind api config (scopes_of shared scope namespace) s result
      → (scan_workload kind api config load_location now shared s).0.workload ≡ result
  scan_workload-accepted s scope namespace grace result retries g m a =
      let scopes = scopes_of shared scope namespace in
      let decision = decision_of kind api config load_location now scopes in
      let skipped = not_skipped scopes g.not_excluded in
      let decided =
        (decision_of-excluded kind api config load_location now scopes skipped).1 g.not_excluded in
      ap (λ (r : Session R C × Option Fault). r.0.workload)
        (scan_workload-passes s scope namespace grace g)
      ∙ then_children-workload kind api config load_location now decision scopes
          (attempt_scaling kind api config decision scopes s)
      ∙ (attempt_scaling-Holds kind api config decision scopes s result retries m
          (ap (λ (d : ScalingDecision). d.scaling) decided ∙ g.down) a).1
