-- ===== src/Metrics/Totals.antt =====
-- The number of workloads that a holder has accounted for.
use go_kube_downscaler.Prelude.{ℕ, ◌+◌, none, some}
use go_kube_downscaler.Metrics.{Holder}

-- How many outcomes a holder counts: scalings, exclusions and errors of single workloads.
abbrev pub outcomes : Holder → ℕ
outcomes none = 0
outcomes (some m) =
    m.downscaled_workloads + m.upscaled_workloads + m.excluded_workloads
    + m.invalid_scaling_value_errors + m.conflict_errors + m.generic_errors
    + m.parsing_workload_scope_errors
