-- ===== src/Downscaler/Scan/Metering.antt =====
-- What a scan does to the metrics.
use go_kube_downscaler.Prelude.{refl, ℤ, inl, inr, Bool-cases, Option, none, some, List, [], ◌∷◌}
use go_kube_downscaler.Fault.{Fault, Result, ok, err}
use go_kube_downscaler.Text.{Text}
use go_kube_downscaler.Dict.{lookup}
use go_kube_downscaler.Time.{Location}
use go_kube_downscaler.Metrics.Calls.{call, call_all, excluded, workload_scope}
use go_kube_downscaler.Values.{Scope, Scopes, new_scope, ScalingDecision, ScopeEvaluation}
use go_kube_downscaler.Values.Query.{get_scale_children}
use go_kube_downscaler.Values.ScopeParser.{get_scope_from_annotations}
use go_kube_downscaler.Workload.{Workload, Api, Session}
use go_kube_downscaler.Downscaler.{Configuration, attempt_scaling}
use go_kube_downscaler.Downscaler.Metering.{IsMetered, then-IsMetered, attempt_scaling-IsMetered}
use go_kube_downscaler.Downscaler.Scan.{
  SharedScopes, scopes_of, scale_workloads, scale_children, then_children, is_skipped, decision_of,
  unless_excluded, unless_in_grace_period, grace_of, in_namespace, with_scope, scan_workload,
}

module _ {R C : Type 0} (kind : Workload R) (api : Api R C) (config : Configuration)
    (load_location : Text → Result Location) (now : ℤ) where
  scale_workloads-IsMetered :
      (decision : ScalingDecision) (scopes : Scopes) (ws : List R) (s : Session R C)
      → IsMetered {A = Unit {0}}
          (λ u. (scale_workloads kind api config load_location now decision scopes ws u, tt))
          s
  unfolding scale_workloads call_all
  scale_workloads-IsMetered decision scopes [] s = ([], λ h. refl)
  scale_workloads-IsMetered decision scopes (w ∷ ws) s =
      then-IsMetered
        (λ u. attempt_scaling kind api config decision scopes (record u { workload = w }))
        (λ o. (scale_workloads kind api config load_location now decision scopes ws o.0, tt)) s
        (attempt_scaling-IsMetered kind api config decision scopes (record s { workload = w }))
        (λ t a. scale_workloads-IsMetered decision scopes ws t)

  scale_children-IsMetered :
      (decision : ScalingDecision) (scopes : Scopes) (r : C × Result (List R)) (s : Session R C)
      → IsMetered (scale_children kind api config load_location now decision scopes r) s
  unfolding scale_children call_all
  scale_children-IsMetered decision scopes (c, err e) s = ([], λ h. refl)
  scale_children-IsMetered decision scopes (c, ok children) s =
      then-IsMetered
        (λ u. (
          scale_workloads kind api config load_location now decision scopes children
              (record u { cluster = c }),
          tt,
        ))
        (λ o. (record o.0 { workload = s.workload }, none)) s
        (scale_workloads-IsMetered decision scopes children (record s { cluster = c }))
        (λ t a. ([], λ h. refl))

  then_children-IsMetered :
      (decision : ScalingDecision) (scopes : Scopes) (e : Option Fault) (s : Session R C)
      → IsMetered (λ u. then_children kind api config load_location now decision scopes (u, e)) s
  unfolding then_children call_all
  then_children-IsMetered decision scopes (some e) s = ([], λ h. refl)
  then_children-IsMetered decision scopes none s = elim (Bool-cases (get_scale_children scopes)) [
    | inl y ↦
        rw y (scale_children-IsMetered decision scopes (api.get_children s.workload s.cluster) s)
    | inr n ↦ rw n ([], λ h. refl)
  ]

  unless_excluded-IsMetered :
      (scopes : Scopes) (s : Session R C)
      → IsMetered (unless_excluded kind api config load_location now scopes) s
  unfolding unless_excluded call_all call
  unless_excluded-IsMetered scopes s =
      let decision = decision_of kind api config load_location now scopes in
      elim (Bool-cases (is_skipped kind api config load_location now scopes)) [
        | inl y ↦ rw y (excluded ∷ [], λ h. refl)
        | inr n ↦ rw n (
            then-IsMetered (attempt_scaling kind api config decision scopes)
              (then_children kind api config load_location now decision scopes) s
              (attempt_scaling-IsMetered kind api config decision scopes s)
              (λ t e. then_children-IsMetered decision scopes e t))
      ]

  unless_in_grace_period-IsMetered :
      (r : Result ScopeEvaluation) (scopes : Scopes) (s : Session R C)
      → IsMetered (unless_in_grace_period kind api config load_location now r scopes) s
  unfolding unless_in_grace_period call_all call
  unless_in_grace_period-IsMetered (err e) scopes s = (excluded ∷ [], λ h. refl)
  unless_in_grace_period-IsMetered (ok grace) scopes s = elim (Bool-cases grace.matched) [
    | inl y ↦ rw y (excluded ∷ [], λ h. refl)
    | inr n ↦ rw n (unless_excluded-IsMetered scopes s)
  ]

  in_namespace-IsMetered :
      (shared : SharedScopes) (workload : Scope) (o : Option Scope) (s : Session R C)
      → IsMetered (in_namespace kind api config load_location now shared workload o) s
  unfolding in_namespace call_all
  in_namespace-IsMetered shared workload none s = ([], λ h. refl)
  in_namespace-IsMetered shared workload (some namespace) s =
      let scopes = scopes_of shared workload namespace in
      unless_in_grace_period-IsMetered
        (grace_of kind api config load_location now scopes s.workload) scopes s

  with_scope-IsMetered :
      (shared : SharedScopes) (r : Result Scope) (s : Session R C)
      → IsMetered (with_scope kind api config load_location now shared r) s
  unfolding with_scope call_all call
  with_scope-IsMetered shared (err e) s = (workload_scope ∷ [], λ h. refl)
  with_scope-IsMetered shared (ok scope) s =
      in_namespace-IsMetered shared scope (lookup (kind.get_namespace s.workload) shared.namespaces)
        s

  -- A scan makes calls on the holder of its namespace that depend on nothing that the holder has:
  -- whatever other goroutines have counted in it, the scan makes the same calls, leaves the same
  -- workload and cluster, and returns the same error.
  pub scan_workload-IsMetered :
      (shared : SharedScopes) (s : Session R C)
      → IsMetered (scan_workload kind api config load_location now shared) s
  unfolding scan_workload
  scan_workload-IsMetered shared s =
      with_scope-IsMetered shared
        (get_scope_from_annotations load_location (kind.get_annotations s.workload) new_scope) s
