-- ===== src/Downscaler/Round/Accounting.antt =====
-- What the metrics record of a round.
use go_kube_downscaler.Prelude.{
  All-reordered, ◌+◌, ◌≡◌, refl, sym, ap, ◌∙◌, true, Option, some, All, List, [], ◌∷◌, map, String,
  arith, ℤ,
}
use go_kube_downscaler.Fault.{Result, ok, err, is_ok}
use go_kube_downscaler.Text.{Text}
use go_kube_downscaler.Dict.{Dict, lookup}
use go_kube_downscaler.Time.{Location}
use go_kube_downscaler.Metrics.{NamespaceMetricsHolder}
use go_kube_downscaler.Metrics.Totals.{outcomes}
use go_kube_downscaler.Scalable.Filter.{Listed, NamespaceMetrics, filter_excluded}
use go_kube_downscaler.Scalable.Filter.Accounting.{measured, count_in, filter_excluded-measures}
use go_kube_downscaler.Scalable.Filter.Holders.{
  has, filter_excluded-HasHolders, filter_excluded-All,
}
use go_kube_downscaler.Values.{Scope}
use go_kube_downscaler.Workload.{Workload, Api}
use go_kube_downscaler.Downscaler.Namespaces.{
  get_namespace_scope, get_namespaces_scopes, handle_namespace_scope_parsing_errors,
}
use go_kube_downscaler.Downscaler.Namespaces.Marking.{
  member, scope_option, lookup-get_namespaces_scopes,
}
use go_kube_downscaler.Downscaler.Round.{
  RoundConfiguration, GlobalScopes, new_namespace_to_metrics, scan_filtered, scan_round,
}
use go_kube_downscaler.Downscaler.Round.Holders.{
  outcomes-IsMeasure, handle_namespace_scope_parsing_errors-Marked,
}
use go_kube_downscaler.Downscaler.Round.Listing.{
  count_in-reordered, member-map, has_grown, has_renamed,
}
use go_kube_downscaler.Downscaler.Round.Scans.{
  IsOrderly, IsChildless, IsKnown, IsOrder, AllAdded-scan_all,
}

module _ {R C : Type 0} (kind : Workload R) (view : R → Listed) (api : Api R C)
    (config : RoundConfiguration) (load_location : Text → Result Location)
    (global : GlobalScopes) where
  module _ (annotations : String → Result (Dict Text))
      (orderly : IsOrderly kind view api config load_location global annotations) (now : ℤ)
      (order : List R → List R)
      (in_order : IsOrder kind view api config load_location global order) where
    known_of :
        (n : String) (r : Result Scope) (o : Option Scope)
        → is_ok r ≡ true
        → o ≡ scope_option r
        → (namespace : Scope) × (r ≡ ok namespace) × (o ≡ some namespace)
    known_of n (ok namespace) o i e = (namespace, refl, e)
    known_of n (err f) o i e = cc i

    All-IsKnown :
        (ns : List String) (ws : List R)
        → All (λ w. member (kind.get_namespace w) ns ≡ true) ws
        → All (IsChildless kind view api config load_location global annotations) ws
        → All
            (IsKnown kind view api config load_location global
              (get_namespaces_scopes load_location annotations ns).0)
            ws
    All-IsKnown ns [] h cs = tt
    All-IsKnown ns (w ∷ ws) (h, hs) (childless, cs) =
        let n = kind.get_namespace w in
        let (namespace, found, there) =
          known_of n (get_namespace_scope load_location annotations n) _
            (orderly.valid_annotations n)
            (lookup-get_namespaces_scopes load_location annotations n ns h) in
        ((namespace, there, childless namespace found), All-IsKnown ns ws hs cs)

    -- The outcomes of the namespace after a round that is opened with these metrics.
    round_from :
        (c : C) (k : String) (r : List R × NamespaceMetrics) (d : Dict NamespaceMetricsHolder)
        → r.1 ≡ some d
        → All (λ w. has (view w).namespace d ≡ true) r.0
        → All (IsChildless kind view api config load_location global annotations) r.0
        → measured outcomes k
            (scan_filtered kind view api config load_location global now order annotations c r).1
          ≡ outcomes (lookup k d) + count_in view k r.0
    round_from c k (ws, m) d e hs cs =
        let ns = map kind.get_namespace ws in
        let r = get_namespaces_scopes load_location annotations ns in
        let (d2, e2, grown, same) = handle_namespace_scope_parsing_errors-Marked r.1 d in
        let (d3, e3, more) =
          AllAdded-scan_all kind view api config load_location global annotations orderly now r.0
            (order ws) (c, handle_namespace_scope_parsing_errors r.1 (some d)) d2 e2
            (All-reordered (λ w. has (kind.get_namespace w) d2 ≡ true) (in_order ws)
              (has_grown kind.get_namespace ws d d2 grown
                (has_renamed view kind.get_namespace ws d orderly.same_namespace hs)))
            (All-reordered (IsKnown kind view api config load_location global r.0) (in_order ws)
              (All-IsKnown ns ws (member-map kind.get_namespace ws) cs)) in
        rw (e, e3)
          (more k
            ∙ ap (λ x. x + count_in view k (order ws)) (same k)
            ∙ ap (λ x. outcomes (lookup k d) + x) (sym (count_in-reordered view k (in_order ws))))

  opened_metrics :
      (annotations : String → Result (Dict Text))
      → IsOrderly kind view api config load_location global annotations
      → new_namespace_to_metrics config.metrics_enabled ≡ some []
  unfolding new_namespace_to_metrics
  opened_metrics annotations orderly = rw orderly.enabled refl

  -- In whatever order its goroutines run, a round counts every workload that the API lists exactly
  -- once: in each namespace, the outcomes that the metrics record are as many as the workloads of
  -- the namespace, be they filtered out, skipped, scaled or met with errors. Metrics are enabled,
  -- the annotations of the namespaces are valid, no scope of a listed workload asks for its
  -- children, and the API gives an object back whenever it is asked for it again.
  pub scan_round-counts :
      (annotations : String → Result (Dict Text)) (now : ℤ) (order : List R → List R) (c : C)
      (workloads : List R) (k : String)
      → IsOrderly kind view api config load_location global annotations
      → IsOrder kind view api config load_location global order
      → All (IsChildless kind view api config load_location global annotations) workloads
      → measured outcomes k
          (scan_round kind view api config load_location global now order annotations c workloads).1
        ≡ count_in view k workloads
  unfolding scan_round lookup
  scan_round-counts annotations now order c workloads k orderly in_order childless =
      let r =
        filter_excluded view workloads config.include_labels config.exclude_namespaces
          config.exclude_workloads (some []) in
      let (d, e, grown, held) =
        filter_excluded-HasHolders view workloads config.include_labels config.exclude_namespaces
          config.exclude_workloads [] in
      let filtered =
        filter_excluded-measures outcomes outcomes-IsMeasure view k workloads config.include_labels
          config.exclude_namespaces config.exclude_workloads [] in
      ap
        (λ m.
          measured outcomes k
            (scan_filtered kind view api config load_location global now order annotations c (
              filter_excluded view workloads config.include_labels config.exclude_namespaces
                config.exclude_workloads m)).1)
        (opened_metrics annotations orderly)
      ∙ round_from annotations orderly now order in_order c k r d e held (
          filter_excluded-All (IsChildless kind view api config load_location global annotations)
            view workloads config.include_labels config.exclude_namespaces config.exclude_workloads
            (some []) childless)
      ∙ ap (λ m. measured outcomes k m + count_in view k r.0) (sym e)
      ∙ filtered
      ∙ omega arith
