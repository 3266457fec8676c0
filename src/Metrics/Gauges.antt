-- ===== src/Metrics/Gauges.antt =====
-- `UpdateMetrics` of internal/pkg/metrics/metrics.go.
--
-- The gauges of a namespace hold the counters of a holder. They are deleted together and set
-- together, so they are one entry here. The gauge with the duration of a cycle is left out.
pub mod Laws
use go_kube_downscaler.Prelude.{
  ℕ, ◌+◌, Bool, true, false, Option, none, some, is_some, List, [], ◌∷◌, String, if◌then◌else◌,
}
use go_kube_downscaler.Dict.{Dict, lookup, insert, delete}
use go_kube_downscaler.Metrics.{NamespaceMetricsHolder}

pub record Gauges : Type 0 where
  pub namespaces : Dict NamespaceMetricsHolder
  pub executions_total : ℕ

-- The keys of a map, as `range` visits them.
abbrev pub keys : Dict NamespaceMetricsHolder → List String
keys [] = []
keys ((k, holder) ∷ m) = k ∷ keys m

-- The gauges of the namespaces that are gone are deleted.
unfoldable pub delete_gone :
    Dict NamespaceMetricsHolder
    → List String
    → Dict NamespaceMetricsHolder
    → Dict NamespaceMetricsHolder
delete_gone current [] gauges = gauges
delete_gone current (k ∷ previous) gauges =
    delete_gone current previous (if is_some (lookup k current) then gauges else delete k gauges)

-- Those of the namespaces that are there are set.
unfoldable pub set_current :
    Dict NamespaceMetricsHolder → Dict NamespaceMetricsHolder → Dict NamespaceMetricsHolder
set_current [] gauges = gauges
set_current ((k, holder) ∷ current) gauges = insert k holder (set_current current gauges)

abbrev pub entries : Option (Dict NamespaceMetricsHolder) → Dict NamespaceMetricsHolder
entries none = []
entries (some m) = m

-- `UpdateMetrics`; the maps are nil where metrics are disabled.
unfoldable pub update_metrics :
    Bool
    → Option (Dict NamespaceMetricsHolder)
    → Option (Dict NamespaceMetricsHolder)
    → Gauges
    → Gauges
unfolding delete_gone set_current
update_metrics enabled current previous gauges =
    if enabled
    then record {
      namespaces =
          set_current (entries current)
            (delete_gone (entries current) (keys (entries previous)) gauges.namespaces);
      executions_total = gauges.executions_total + 1;
    }
    else gauges
