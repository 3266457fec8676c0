-- ===== src/Downscaler/Scan.antt =====
-- `scanWorkload` of cmd/kubedownscaler/main.go: the guards before a workload is scaled, and its
-- children. `now` is what every `time.Now()` of one scan returns.
--
-- The children are scaled by goroutines, and nobody waits for them in the source: they may still
-- run when the scan, and even the round, is over. One run is modelled: child after child, finished
-- before the scan returns. What is shown of a scan with children holds of that run.
pub mod Metering
pub mod Interleaving
pub mod Guards
pub mod Accounting
use go_kube_downscaler.Prelude.{
  Bool, true, false, ◌&&◌, not, Option, none, some, ℤ, if◌then◌else◌, List, [], ◌∷◌,
}
use go_kube_downscaler.Fault.{Fault, Result, ok, err, namespace_scope_retrieve}
use go_kube_downscaler.Text.{Text}
use go_kube_downscaler.Dict.{Dict, lookup}
use go_kube_downscaler.Time.{Location}
use go_kube_downscaler.Metrics.{increment_excluded, increment_parsing_workload_scope_errors}
use go_kube_downscaler.Values.{Scope, Scopes, new_scope, ScalingDecision, ScopeEvaluation}
use go_kube_downscaler.Values.Query.{
  get_upscale_excluded, get_excluded_with_scope, is_in_grace_period, get_scale_children,
}
use go_kube_downscaler.Values.ScopeParser.{get_scope_from_annotations}
use go_kube_downscaler.Workload.{Workload, Api, Session}
use go_kube_downscaler.Downscaler.{
  Configuration, Outcome, metered, current_scaling, attempt_scaling,
}

-- The scopes that all workloads share.
pub record SharedScopes : Type 0 where
  pub default : Scope
  pub cli : Scope
  pub environment : Scope
  pub namespaces : Dict Scope

abbrev pub scopes_of : SharedScopes → Scope → Scope → Scopes
scopes_of shared workload namespace = record {
  workload = workload;
  namespace = namespace;
  cli = shared.cli;
  environment = shared.environment;
  default = shared.default;
}

module _ {R C : Type 0} (kind : Workload R) (api : Api R C) (config : Configuration)
    (load_location : Text → Result Location) (now : ℤ) where
  -- `scaleWorkloads`, where every goroutine ends before the next starts: the errors are logged
  -- only.
  unfoldable pub scale_workloads : ScalingDecision → Scopes → List R → Session R C → Session R C
  scale_workloads decision scopes [] s = s
  scale_workloads decision scopes (w ∷ ws) s =
      let (t, e) = attempt_scaling kind api config decision scopes (record s { workload = w }) in
      scale_workloads decision scopes ws t

  unfoldable pub scale_children :
      ScalingDecision → Scopes → C × Result (List R) → Session R C → Session R C × Option Fault
  unfolding scale_workloads
  scale_children decision scopes (c, err e) s = (record s { cluster = c }, some e)
  scale_children decision scopes (c, ok children) s =
      let t = scale_workloads decision scopes children (record s { cluster = c }) in
      (record t { workload = s.workload }, none)

  unfoldable pub then_children :
      ScalingDecision → Scopes → Session R C × Option Fault → Session R C × Option Fault
  unfolding scale_children
  then_children decision scopes (s, some e) = (s, some e)
  then_children decision scopes (s, none) =
      if get_scale_children scopes
      then scale_children decision scopes (api.get_children s.workload s.cluster) s
      else (s, none)

  abbrev pub skip : Session R C → Session R C × Option Fault
  skip s = (metered kind api config increment_excluded s, none)

  unfoldable pub decision_of : Scopes → ScalingDecision
  decision_of scopes =
      let upscale = get_upscale_excluded scopes in
      current_scaling now (get_excluded_with_scope now scopes scopes).matched upscale.0 upscale.1
        scopes

  -- Whether an exclusion stops the scan.
  unfoldable pub is_skipped : Scopes → Bool
  is_skipped scopes =
      (get_excluded_with_scope now scopes scopes).matched && not (get_upscale_excluded scopes).0

  unfoldable pub unless_excluded : Scopes → Session R C → Session R C × Option Fault
  unfolding then_children decision_of is_skipped
  unless_excluded scopes s =
      if is_skipped scopes
      then skip s
      else then_children (decision_of scopes) scopes
          (attempt_scaling kind api config (decision_of scopes) scopes s)

  unfoldable pub unless_in_grace_period :
      Result ScopeEvaluation → Scopes → Session R C → Session R C × Option Fault
  unfolding unless_excluded
  unless_in_grace_period (err e) scopes s = (metered kind api config increment_excluded s, some e)
  unless_in_grace_period (ok grace) scopes s =
      if grace.matched then skip s else unless_excluded scopes s

  unfoldable pub grace_of : Scopes → R → Result ScopeEvaluation
  grace_of scopes w =
      is_in_grace_period now config.time_annotation (kind.get_annotations w)
        (kind.get_creation_timestamp w) scopes

  unfoldable pub in_namespace :
      SharedScopes → Scope → Option Scope → Session R C → Session R C × Option Fault
  unfolding unless_in_grace_period grace_of
  in_namespace shared workload none s = (s, some namespace_scope_retrieve)
  in_namespace shared workload (some namespace) s =
      let scopes = scopes_of shared workload namespace in
      unless_in_grace_period (grace_of scopes s.workload) scopes s

  unfoldable pub with_scope : SharedScopes → Result Scope → Session R C → Session R C × Option Fault
  unfolding in_namespace
  with_scope shared (err e) s =
      (metered kind api config increment_parsing_workload_scope_errors s, some e)
  with_scope shared (ok scope) s =
      in_namespace shared scope (lookup (kind.get_namespace s.workload) shared.namespaces) s

  -- `scanWorkload`.
  unfoldable pub scan_workload : SharedScopes → Session R C → Session R C × Option Fault
  unfolding with_scope
  scan_workload shared s =
      with_scope shared
        (get_scope_from_annotations load_location (kind.get_annotations s.workload) new_scope) s
