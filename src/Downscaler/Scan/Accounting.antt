-- ===== src/Downscaler/Scan/Accounting.antt =====
-- What the metrics of a namespace record of one scan of a workload.
use go_kube_downscaler.Prelude.{
  suc, ◌≡◌, refl, true, false, Option, none, some, ℤ, inl, inr, Bool-cases, arith,
}
use go_kube_downscaler.Fault.{Fault, Result, ok, err, is_ok}
use go_kube_downscaler.Text.{Text}
use go_kube_downscaler.Time.{Location}
use go_kube_downscaler.Dict.{lookup}
use go_kube_downscaler.Metrics.{NamespaceMetricsHolder, increment_parsing_workload_scope_errors}
use go_kube_downscaler.Metrics.Totals.{outcomes}
use go_kube_downscaler.Values.{Scope, Scopes, new_scope, ScalingDecision, ScopeEvaluation}
use go_kube_downscaler.Values.Query.{get_scale_children}
use go_kube_downscaler.Values.ScopeParser.{get_scope_from_annotations}
use go_kube_downscaler.Workload.{Workload, Api, Session}
use go_kube_downscaler.Downscaler.{Configuration}
use go_kube_downscaler.Downscaler.Accounting.{OneMore, OneMore-excluded, attempt_scaling-counts}
use go_kube_downscaler.Downscaler.Scan.{
  SharedScopes, scopes_of, then_children, skip, is_skipped, unless_excluded, unless_in_grace_period,
  in_namespace, with_scope, scan_workload,
}

OneMore-parsing :
    (m : NamespaceMetricsHolder) → OneMore (increment_parsing_workload_scope_errors (some m)) m
unfolding increment_parsing_workload_scope_errors
OneMore-parsing m = omega arith

module _ {R C : Type 0} (kind : Workload R) (api : Api R C) (config : Configuration)
    (load_location : Text → Result Location) (now : ℤ) (m : NamespaceMetricsHolder) where
  childless-counts :
      (decision : ScalingDecision) (scopes : Scopes) (r : Session R C × Option Fault)
      → get_scale_children scopes ≡ false
      → OneMore r.0.metrics m
      → OneMore (then_children kind api config load_location now decision scopes r).0.metrics m
  unfolding then_children
  childless-counts decision scopes (s, some e) c h = h
  childless-counts decision scopes (s, none) c h = rw c h

  skip-counts :
      (s : Session R C)
      → s.metrics ≡ some m
      → OneMore (skip kind api config load_location now s).0.metrics m
  skip-counts s h = rw h (OneMore-excluded m)

  unless_excluded-counts :
      (scopes : Scopes) (s : Session R C)
      → ((w : R) (c : C) → is_ok (api.reget w c).1 ≡ true)
      → get_scale_children scopes ≡ false
      → s.metrics ≡ some m
      → OneMore (unless_excluded kind api config load_location now scopes s).0.metrics m
  unfolding unless_excluded
  unless_excluded-counts scopes s g c h =
      elim (Bool-cases (is_skipped kind api config load_location now scopes)) [
        | inl y ↦ rw y (skip-counts s h)
        | inr o ↦ rw o (
            childless-counts _ scopes _ c (attempt_scaling-counts kind api config m _ scopes s g h))
      ]

  unless_in_grace_period-counts :
      (r : Result ScopeEvaluation) (scopes : Scopes) (s : Session R C)
      → ((w : R) (c : C) → is_ok (api.reget w c).1 ≡ true)
      → get_scale_children scopes ≡ false
      → s.metrics ≡ some m
      → OneMore (unless_in_grace_period kind api config load_location now r scopes s).0.metrics m
  unfolding unless_in_grace_period
  unless_in_grace_period-counts (err e) scopes s g c h = rw h (OneMore-excluded m)
  unless_in_grace_period-counts (ok grace) scopes s g c h = elim (Bool-cases grace.matched) [
    | inl y ↦ rw y (skip-counts s h)
    | inr o ↦ rw o (unless_excluded-counts scopes s g c h)
  ]

  with_scope-counts :
      (shared : SharedScopes) (namespace : Scope) (r : Result Scope) (s : Session R C)
      → ((w : R) (c : C) → is_ok (api.reget w c).1 ≡ true)
      → lookup (kind.get_namespace s.workload) shared.namespaces ≡ some namespace
      → ((scope : Scope)
          → r ≡ ok scope
          → get_scale_children (scopes_of shared scope namespace) ≡ false)
      → s.metrics ≡ some m
      → OneMore (with_scope kind api config load_location now shared r s).0.metrics m
  unfolding with_scope in_namespace
  with_scope-counts shared namespace (err e) s g n c h = rw h (OneMore-parsing m)
  with_scope-counts shared namespace (ok scope) s g n c h =
      rw n (unless_in_grace_period-counts _ (scopes_of shared scope namespace) s g (c scope refl) h)

  -- A scan of a workload whose children are not scaled records exactly one outcome of it in the
  -- metrics of its namespace, also where its annotations are not valid, its grace period cannot be
  -- told, or it is skipped. Metrics are enabled, the scope of its namespace is known, and the API
  -- gives the object back whenever it is asked for it again.
  pub scan_workload-counts :
      (shared : SharedScopes) (namespace : Scope) (s : Session R C)
      → ((w : R) (c : C) → is_ok (api.reget w c).1 ≡ true)
      → lookup (kind.get_namespace s.workload) shared.namespaces ≡ some namespace
      → ((scope : Scope)
          → get_scope_from_annotations load_location (kind.get_annotations s.workload) new_scope
            ≡ ok scope
          → get_scale_children (scopes_of shared scope namespace) ≡ false)
      → s.metrics ≡ some m
      → outcomes (scan_workload kind api config load_location now shared s).0.metrics
        ≡ suc (outcomes (some m))
  unfolding scan_workload
  scan_workload-counts shared namespace s g n c h = with_scope-counts shared namespace _ s g n c h
