-- ===== src/Metrics.antt =====
-- internal/pkg/metrics: savedResources.go and namespaceMetricsHolder.go.
--
-- The source counts in float64. The counters are numbers here (a float64 counts exactly up to 2 ^
-- 53), and the saved CPU and memory are integers, in units of which every request is a multiple, so
-- that their sums and products are exact. The lock of the holder makes each method one step.
pub mod Totals
pub mod Gauges
pub mod Calls
use go_kube_downscaler.Prelude.{ℕ, ◌+◌, Option, none, some, ℤ, pos, ◌+ℤ◌}

pub record SavedResources : Type 0 where
  pub total_saved_cpu : ℤ
  pub total_saved_memory : ℤ

-- `NewSavedResources(0, 0)`.
abbrev pub no_saved_resources : SavedResources
no_saved_resources = record { total_saved_cpu = pos 0; total_saved_memory = pos 0 }

pub record NamespaceMetricsHolder : Type 0 where
  pub downscaled_workloads : ℕ
  pub upscaled_workloads : ℕ
  pub excluded_workloads : ℕ
  pub invalid_scaling_value_errors : ℕ
  pub conflict_errors : ℕ
  pub generic_errors : ℕ
  pub parsing_namespace_scope_errors : ℕ
  pub parsing_workload_scope_errors : ℕ
  pub saved_memory_bytes : ℤ
  pub saved_cpu_cores : ℤ

abbrev pub new_namespace_metrics_holder : NamespaceMetricsHolder
new_namespace_metrics_holder = record {
  downscaled_workloads = 0;
  upscaled_workloads = 0;
  excluded_workloads = 0;
  invalid_scaling_value_errors = 0;
  conflict_errors = 0;
  generic_errors = 0;
  parsing_namespace_scope_errors = 0;
  parsing_workload_scope_errors = 0;
  saved_memory_bytes = pos 0;
  saved_cpu_cores = pos 0;
}

-- A pointer to a holder; the methods do nothing on a nil one, as when metrics are disabled.
abbrev pub Holder : Type 0
Holder = Option NamespaceMetricsHolder

unfoldable pub increment_downscaled : Holder → Holder
increment_downscaled none = none
increment_downscaled (some m) =
    some (record m { downscaled_workloads = m.downscaled_workloads + 1 })

unfoldable pub increment_upscaled : Holder → Holder
increment_upscaled none = none
increment_upscaled (some m) = some (record m { upscaled_workloads = m.upscaled_workloads + 1 })

unfoldable pub increment_excluded : Holder → Holder
increment_excluded none = none
increment_excluded (some m) = some (record m { excluded_workloads = m.excluded_workloads + 1 })

unfoldable pub increment_invalid_scaling_value_errors : Holder → Holder
increment_invalid_scaling_value_errors none = none
increment_invalid_scaling_value_errors (some m) =
    some (record m { invalid_scaling_value_errors = m.invalid_scaling_value_errors + 1 })

unfoldable pub increment_conflict_errors : Holder → Holder
increment_conflict_errors none = none
increment_conflict_errors (some m) = some (record m { conflict_errors = m.conflict_errors + 1 })

unfoldable pub increment_generic_errors : Holder → Holder
increment_generic_errors none = none
increment_generic_errors (some m) = some (record m { generic_errors = m.generic_errors + 1 })

unfoldable pub mark_parsing_namespace_scope_error : Holder → Holder
mark_parsing_namespace_scope_error none = none
mark_parsing_namespace_scope_error (some m) = some (record m { parsing_namespace_scope_errors = 1 })

unfoldable pub increment_parsing_workload_scope_errors : Holder → Holder
increment_parsing_workload_scope_errors none = none
increment_parsing_workload_scope_errors (some m) =
    some (record m { parsing_workload_scope_errors = m.parsing_workload_scope_errors + 1 })

unfoldable pub increment_saved_resources : SavedResources → Holder → Holder
increment_saved_resources saved none = none
increment_saved_resources saved (some m) = some (record m {
  saved_memory_bytes = m.saved_memory_bytes +ℤ saved.total_saved_memory;
  saved_cpu_cores = m.saved_cpu_cores +ℤ saved.total_saved_cpu;
})
