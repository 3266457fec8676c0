-- ===== src/Downscaler/Round.antt =====
-- `startScanning` of cmd/kubedownscaler/main.go: the rounds over all workloads.
--
-- The goroutines of a round, which share the cluster and the holders of the namespaces, are run one
-- after the other, in any order of the workloads. The list of all workloads and the annotations
-- of the namespaces come from the API, and `now` is what `time.Now()` returns during a round.
pub mod Holders
pub mod Listing
pub mod Scans
pub mod Accounting
pub mod Exposed
use go_kube_downscaler.Prelude.{
  Bool, true, false, List, [], ◌∷◌, map, Option, none, some, String, ℤ, if◌then◌else◌,
}
use go_kube_downscaler.Fault.{Fault, Result, ok, err, metrics_disabled, metric_holder_not_found}
use go_kube_downscaler.Text.{Text}
use go_kube_downscaler.Dict.{Dict, lookup}
use go_kube_downscaler.Time.{Location}
use go_kube_downscaler.Metrics.{NamespaceMetricsHolder, Holder}
use go_kube_downscaler.Metrics.Gauges.{Gauges, update_metrics}
use go_kube_downscaler.Values.{Scope}
use go_kube_downscaler.Scalable.Filter.{
  RegexList, Listed, NamespaceMetrics, insert_if, filter_excluded,
}
use go_kube_downscaler.Workload.{Workload, Api, Session}
use go_kube_downscaler.Downscaler.{Configuration}
use go_kube_downscaler.Downscaler.Scan.{SharedScopes, scan_workload}
use go_kube_downscaler.Downscaler.Namespaces.{
  get_namespaces_scopes, handle_namespace_scope_parsing_errors,
}

-- The part of the configuration that the rounds read, besides that of a scan.
pub record RoundConfiguration : Type 0 where
  pub scan : Configuration
  pub include_labels : RegexList
  pub exclude_namespaces : RegexList
  pub exclude_workloads : RegexList
  pub metrics_enabled : Bool
  pub once : Bool

abbrev pub found_in : Option NamespaceMetricsHolder → Result Holder
found_in none = err metric_holder_not_found
found_in (some holder) = ok (some holder)

abbrev pub holder_in : String → NamespaceMetrics → Result Holder
holder_in namespace none = err metric_holder_not_found
holder_in namespace (some d) = found_in (lookup namespace d)

-- `getWorkloadNamespaceMetrics`.
unfoldable pub get_workload_namespace_metrics : Bool → String → NamespaceMetrics → Result Holder
get_workload_namespace_metrics enabled namespace m =
    if enabled then holder_in namespace m else err metrics_disabled

-- `errors.Is(err, ErrMetricsDisabled)`.
unfoldable pub is_metrics_disabled : Fault → Bool
is_metrics_disabled metrics_disabled = true
is_metrics_disabled _ = false

unfoldable pub new_namespace_to_metrics : Bool → NamespaceMetrics
new_namespace_to_metrics enabled = if enabled then some [] else none

-- The holder is one object for all goroutines of a namespace.
abbrev pub put_holder : String → Holder → NamespaceMetrics → NamespaceMetrics
put_holder namespace holder none = none
put_holder namespace holder (some d) = some (insert_if namespace holder d)

-- What the rounds carry on: the cluster, the metrics of the last round, and the gauges.
pub record Loop (C : Type 0) : Type 0 where
  pub cluster : C
  pub previous : NamespaceMetrics
  pub gauges : Gauges

-- The scopes of all rounds.
pub record GlobalScopes : Type 0 where
  pub default : Scope
  pub cli : Scope
  pub environment : Scope

abbrev pub shared_scopes : GlobalScopes → Dict Scope → SharedScopes
shared_scopes global namespaces = record {
  default = global.default;
  cli = global.cli;
  environment = global.environment;
  namespaces = namespaces;
}

module _ {R C : Type 0} (kind : Workload R) (view : R → Listed) (api : Api R C)
    (config : RoundConfiguration) (load_location : Text → Result Location)
    (global : GlobalScopes) where
  abbrev pub after_scan :
      String → NamespaceMetrics → Session R C × Option Fault → C × NamespaceMetrics
  after_scan namespace m (s, e) = (s.cluster, put_holder namespace s.metrics m)

  -- A goroutine: without a holder it ends, unless metrics are disabled. Errors are logged only.
  unfoldable pub scan_with :
      ℤ → Dict Scope → R → Result Holder → C × NamespaceMetrics → C × NamespaceMetrics
  unfolding is_metrics_disabled
  scan_with now scopes w (ok holder) (c, m) = after_scan (kind.get_namespace w) m (
      scan_workload kind api config.scan load_location now (shared_scopes global scopes)
        (record { workload = w; cluster = c; metrics = holder }))
  scan_with now scopes w (err e) (c, m) =
      if is_metrics_disabled e
      then after_scan (kind.get_namespace w) m (
          scan_workload kind api config.scan load_location now (shared_scopes global scopes)
            (record { workload = w; cluster = c; metrics = none }))
      else (c, m)

  unfoldable pub scan_all : ℤ → Dict Scope → List R → C × NamespaceMetrics → C × NamespaceMetrics
  unfolding scan_with
  scan_all now scopes [] s = s
  scan_all now scopes (w ∷ ws) s = scan_all now scopes ws (
      scan_with now scopes w
        (get_workload_namespace_metrics config.metrics_enabled (kind.get_namespace w) s.1) s)

  abbrev pub scan_kept :
      ℤ
      → (List R → List R)
      → C
      → List R
      → NamespaceMetrics
      → Dict Scope × List String
      → C × NamespaceMetrics
  scan_kept now order c workloads m (scopes, failed) =
      scan_all now scopes (order workloads) (c, handle_namespace_scope_parsing_errors failed m)

  -- `annotations` are those of the namespaces.
  abbrev pub scan_filtered :
      ℤ
      → (List R → List R)
      → (String → Result (Dict Text))
      → C
      → List R × NamespaceMetrics
      → C × NamespaceMetrics
  scan_filtered now order annotations c (workloads, m) =
      scan_kept now order c workloads m
        (get_namespaces_scopes load_location annotations (map kind.get_namespace workloads))

  -- A round over the workloads that the API lists, from the filter to the last scan.
  unfoldable pub scan_round :
      ℤ → (List R → List R) → (String → Result (Dict Text)) → C → List R → C × NamespaceMetrics
  unfolding scan_all filter_excluded get_namespaces_scopes handle_namespace_scope_parsing_errors
      new_namespace_to_metrics
  scan_round now order annotations c workloads = scan_filtered now order annotations c (
      filter_excluded view workloads config.include_labels config.exclude_namespaces
        config.exclude_workloads (new_namespace_to_metrics config.metrics_enabled))

  abbrev pub close_round : Loop C → C × NamespaceMetrics → Loop C
  close_round l (c, m) = record {
    cluster = c;
    previous = m;
    gauges = update_metrics config.metrics_enabled m l.previous l.gauges;
  }

  -- What the API answers in a round, its time, and the order in which its goroutines run.
  pub record Replies : Type 0 where
    pub now : ℤ
    pub order : List R → List R
    pub workloads : C → C × Result (List R)
    pub annotations : String → Result (Dict Text)

  abbrev pub round_of : Replies → Loop C → C × Result (List R) → Loop C × Option Fault
  unfolding scan_round
  round_of answers l (c, err e) = (record l { cluster = c }, some e)
  round_of answers l (c, ok workloads) =
      (close_round l (scan_round answers.now answers.order answers.annotations c workloads), none)

  unfoldable pub round : Replies → Loop C → Loop C × Option Fault
  unfolding scan_round
  round answers l = round_of answers l (answers.workloads l.cluster)

  -- The rounds that these answers allow. A failed list of workloads ends them, and so does `Once`.
  abbrev pub next_rounds :
      (Loop C → Loop C × Option Fault) → Loop C × Option Fault → Loop C × Option Fault
  next_rounds rest (l, some e) = (l, some e)
  next_rounds rest (l, none) = if config.once then (l, none) else rest l

  -- `startScanning`, over the answers of as many rounds as it lives.
  unfoldable pub start_scanning : List Replies → Loop C → Loop C × Option Fault
  unfolding round
  start_scanning [] l = (l, none)
  start_scanning (answers ∷ rest) l = next_rounds (start_scanning rest) (round answers l)
