-- ===== src/Downscaler/Round/Scans.antt =====
-- What the scans of a round add to the metrics.
use mathlib.Core.List.{Permᴰ}
use go_kube_downscaler.Prelude.{
  suc, ◌+◌, ◌≡◌, refl, sym, ap, ◌∙◌, true, false, inl, inr, Option-cases, some, All, List, [], ◌∷◌,
  String, str_eq, if◌then◌else◌, arith, ℤ,
}
use go_kube_downscaler.Fault.{Result, ok, is_ok}
use go_kube_downscaler.Text.{Text}
use go_kube_downscaler.Dict.{Dict, lookup}
use go_kube_downscaler.Time.{Location}
use go_kube_downscaler.Metrics.{NamespaceMetricsHolder}
use go_kube_downscaler.Metrics.Totals.{outcomes}
use go_kube_downscaler.Scalable.Filter.{Listed, NamespaceMetrics, insert_if}
use go_kube_downscaler.Scalable.Filter.Accounting.{count_in}
use go_kube_downscaler.Scalable.Filter.Holders.{has, has-insert_if}
use go_kube_downscaler.Values.{Scope, new_scope}
use go_kube_downscaler.Values.Query.{get_scale_children}
use go_kube_downscaler.Values.ScopeParser.{get_scope_from_annotations}
use go_kube_downscaler.Workload.{Workload, Api}
use go_kube_downscaler.Downscaler.Scan.{scopes_of, scan_workload}
use go_kube_downscaler.Downscaler.Scan.Accounting.{scan_workload-counts}
use go_kube_downscaler.Downscaler.Namespaces.{get_namespace_scope}
use go_kube_downscaler.Downscaler.Round.{
  RoundConfiguration, GlobalScopes, shared_scopes, get_workload_namespace_metrics, scan_with,
  scan_all,
}
use go_kube_downscaler.Downscaler.Round.Holders.{outcomes-insert_if}
use go_kube_downscaler.Downscaler.Round.Listing.{has_grown}

module _ {R C : Type 0} (kind : Workload R) (view : R → Listed) (api : Api R C)
    (config : RoundConfiguration) (load_location : Text → Result Location)
    (global : GlobalScopes) where
  -- The goroutines of a round run in some order.
  abbrev pub IsOrder : (List R → List R) → Type 0
  IsOrder order = (ws : List R) → Permᴰ ws (order ws)

  -- What a round counts on: metrics are enabled, the API gives an object back whenever it is asked
  -- for it again, and the annotations of the namespaces are valid.
  pub record IsOrderly (annotations : String → Result (Dict Text)) : Type 0 where
    pub enabled : config.metrics_enabled ≡ true
    pub same_namespace : (w : R) → (view w).namespace ≡ kind.get_namespace w
    pub regets : (w : R) (c : C) → is_ok (api.reget w c).1 ≡ true
    pub valid_annotations :
        (n : String) → is_ok (get_namespace_scope load_location annotations n) ≡ true

  -- With this scope of the namespace, no scope of the workload asks for its children.
  abbrev pub IsChildlessUnder : R → Scope → Type 0
  IsChildlessUnder w namespace =
      (scope : Scope)
      → get_scope_from_annotations load_location (kind.get_annotations w) new_scope ≡ ok scope
      → get_scale_children (scopes_of (shared_scopes global []) scope namespace) ≡ false

  abbrev pub IsChildless : (String → Result (Dict Text)) → R → Type 0
  IsChildless annotations w =
      (namespace : Scope)
      → get_namespace_scope load_location annotations (kind.get_namespace w) ≡ ok namespace
      → IsChildlessUnder w namespace

  -- The namespace of the workload has a scope, and none asks for the children.
  abbrev pub IsKnown : Dict Scope → R → Type 0
  IsKnown scopes w =
      (namespace : Scope) × (lookup (kind.get_namespace w) scopes ≡ some namespace)
      × IsChildlessUnder w namespace

  module _ (annotations : String → Result (Dict Text)) (orderly : IsOrderly annotations) (now : ℤ)
      (scopes : Dict Scope) where
    -- The metrics after a scan: no holder is lost, and one outcome is added.
    abbrev Added : String → Dict NamespaceMetricsHolder → NamespaceMetrics → Type 0
    Added n d m =
        (d' : Dict NamespaceMetricsHolder) × (m ≡ some d')
        × ((k : String) → has k d ≡ true → has k d' ≡ true)
        × ((k : String)
            → outcomes (lookup k d')
              ≡ (if str_eq n k then suc (outcomes (lookup k d)) else outcomes (lookup k d)))

    Added-scan :
        (w : R) (c : C) (d : Dict NamespaceMetricsHolder) (h : NamespaceMetricsHolder)
        (namespace : Scope)
        → lookup (kind.get_namespace w) d ≡ some h
        → lookup (kind.get_namespace w) scopes ≡ some namespace
        → IsChildlessUnder w namespace
        → Added
            (kind.get_namespace w)
            d
            (scan_with kind view api config load_location global now scopes w
              (ok (some h))
              (c, some d)).1
    unfolding scan_with
    Added-scan w c d h namespace e n childless =
        let o =
          (scan_workload kind api config.scan load_location now (shared_scopes global scopes)
            (record { workload = w; cluster = c; metrics = some h })).0.metrics in
        (
          insert_if (kind.get_namespace w) o d,
          refl,
          λ k i. has-insert_if (kind.get_namespace w) k o d i,
          λ k. outcomes-insert_if (kind.get_namespace w) k o d (
              scan_workload-counts kind api config.scan load_location now h
                (shared_scopes global scopes) namespace
                (record { workload = w; cluster = c; metrics = some h }) orderly.regets n childless
                refl
              ∙ ap (λ x. suc (outcomes x)) (sym e)),
        )

    held :
        (n : String) (d : Dict NamespaceMetricsHolder)
        → has n d ≡ true
        → (h : NamespaceMetricsHolder) × (lookup n d ≡ some h)
          × (get_workload_namespace_metrics config.metrics_enabled n (some d) ≡ ok (some h))
    unfolding get_workload_namespace_metrics
    held n d e = elim (Option-cases (lookup n d)) [
      | inl none_there ↦ cc (rw none_there at e)
      | inr (h, there) ↦ (h, there, rw (orderly.enabled, there) refl)
    ]

    -- The metrics after the scans of some workloads.
    abbrev AllAdded : List R → Dict NamespaceMetricsHolder → NamespaceMetrics → Type 0
    AllAdded ws d m =
        (d' : Dict NamespaceMetricsHolder) × (m ≡ some d')
        × ((k : String) → outcomes (lookup k d') ≡ outcomes (lookup k d) + count_in view k ws)

    pub AllAdded-scan_all :
        (ws : List R) (s : C × NamespaceMetrics) (d : Dict NamespaceMetricsHolder)
        → s.1 ≡ some d
        → All (λ w. has (kind.get_namespace w) d ≡ true) ws
        → All (IsKnown scopes) ws
        → AllAdded ws d (scan_all kind view api config load_location global now scopes ws s).1
    unfolding scan_all
    AllAdded-scan_all [] s d e hs ns = (d, e, λ k. omega arith)
    AllAdded-scan_all (w ∷ ws) (c, m) d e (held_w, hs) ((namespace, n, childless), ns) =
        let (h, there, found) = held (kind.get_namespace w) d held_w in
        let (d1, e1, kept, added) = Added-scan w c d h namespace there n childless in
        let (d2, e2, more) =
          AllAdded-scan_all ws
            (scan_with kind view api config load_location global now scopes w (ok (some h))
              (c, some d))
            d1 e1 (has_grown kind.get_namespace ws d d1 kept hs) ns in
        rw (e, scan_all, found)
          (d2, e2, λ k. rw (orderly.same_namespace w) (ground (arith, more k, added k)))
