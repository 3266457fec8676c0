-- ===== src/Downscaler/Accounting.antt =====
-- What the metrics of a namespace record of the scaling of one workload.
use go_kube_downscaler.Prelude.{
  ℕ, zero, suc, ◌≡◌, refl, ◌∙◌, true, Option, none, some, arith, inl, inr, Bool-cases,
}
use go_kube_downscaler.Fault.{Fault, Result, ok, err, is_ok}
use go_kube_downscaler.Metrics.{
  SavedResources, Holder, NamespaceMetricsHolder, increment_downscaled, increment_upscaled,
  increment_excluded, increment_invalid_scaling_value_errors, increment_conflict_errors,
  increment_generic_errors, increment_saved_resources,
}
use go_kube_downscaler.Metrics.Totals.{outcomes}
use go_kube_downscaler.Replicas.{Replicas}
use go_kube_downscaler.Scalable.{ScalingSummary}
use go_kube_downscaler.Values.{
  Scopes, Scaling, scaling_none, scaling_ignore, scaling_down, scaling_up, scaling_multiple,
  scaling_incomplete, ScalingDecision,
}
use go_kube_downscaler.Values.Query.{get_downscale_replicas}
use go_kube_downscaler.Workload.{
  Workload, Api, Session, updated, store_downscaled, downscale_workload, store_upscaled,
  upscale_workload,
}
use go_kube_downscaler.Downscaler.{
  is_conflict, is_scaling_invalid, Configuration, record_scaling_error, increment_saved, downscaled,
  downscale_to, upscaled, scale_workload, regotten, after_attempt, attempts, attempt_scaling,
}

-- `m'` records one outcome more than `m`.
abbrev pub OneMore : Holder → NamespaceMetricsHolder → Type 0
OneMore after m = outcomes after ≡ suc (outcomes (some m))

pub OneMore-excluded : (m : NamespaceMetricsHolder) → OneMore (increment_excluded (some m)) m
unfolding increment_excluded
OneMore-excluded m = omega arith

OneMore-upscaled : (m : NamespaceMetricsHolder) → OneMore (increment_upscaled (some m)) m
unfolding increment_upscaled
OneMore-upscaled m = omega arith

OneMore-downscaled :
    (o : Option SavedResources) (m : NamespaceMetricsHolder)
    → OneMore (increment_saved o (increment_downscaled (some m))) m
unfolding increment_downscaled increment_saved increment_saved_resources
OneMore-downscaled none m = omega arith
OneMore-downscaled (some saved) m = omega arith

OneMore-conflict : (m : NamespaceMetricsHolder) → OneMore (increment_conflict_errors (some m)) m
unfolding increment_conflict_errors
OneMore-conflict m = omega arith

OneMore-error :
    (e : Fault) (m : NamespaceMetricsHolder) → OneMore (record_scaling_error e (some m)) m
unfolding record_scaling_error increment_generic_errors increment_invalid_scaling_value_errors
OneMore-error e m = elim (Bool-cases (is_scaling_invalid e)) [
  | inl i ↦ rw i (omega arith)
  | inr o ↦ rw o (omega arith)
]

module _ {R C : Type 0} (kind : Workload R) (api : Api R C) (config : Configuration) where
  -- Success records one outcome, and an error none.
  Counted : NamespaceMetricsHolder → Session R C × Option Fault → Type 0
  Counted m (s, none) = OneMore s.metrics m
  Counted m (s, some e) = s.metrics ≡ some m

  updated-metrics {ℓ} :
      {A : Type ℓ} (w : R) (value : A) (r : C × Option Fault) (s : Session R C)
      → (updated kind api config.dry_run w value r s).0.metrics ≡ s.metrics
  updated-metrics w value (c, none) s = refl
  updated-metrics w value (c, some e) s = refl

  stored_downscaled-metrics :
      (r : Result (R × ScalingSummary)) (s : Session R C)
      → (store_downscaled kind api config.dry_run r s).0.metrics ≡ s.metrics
  unfolding store_downscaled
  stored_downscaled-metrics (err e) s = refl
  stored_downscaled-metrics (ok (w, summary)) s = elim (Bool-cases summary.is_update_needed) [
    | inl u ↦ elim (Bool-cases config.dry_run) [
      | inl d ↦ rw (u, d) refl
      | inr d ↦ rw (u, d) (updated-metrics w summary.saved_resources (api.update w s.cluster) s)
    ]
    | inr n ↦ rw n refl
  ]

  stored_upscaled-metrics :
      (r : Result (R × ScalingSummary)) (s : Session R C)
      → (store_upscaled kind api config.dry_run r s).0.metrics ≡ s.metrics
  unfolding store_upscaled
  stored_upscaled-metrics (err e) s = refl
  stored_upscaled-metrics (ok (w, summary)) s = elim (Bool-cases summary.is_update_needed) [
    | inl u ↦ elim (Bool-cases config.dry_run) [
      | inl d ↦ rw (u, d) refl
      | inr d ↦ rw (u, d) (updated-metrics w tt (api.update w s.cluster) s)
    ]
    | inr n ↦ rw n refl
  ]

  downscaled-counts :
      (m : NamespaceMetricsHolder) (r : Session R C × Result (Option SavedResources))
      → r.0.metrics ≡ some m
      → Counted m (downscaled kind api config r)
  unfolding downscaled Counted
  downscaled-counts m (s, err e) h = h
  downscaled-counts m (s, ok saved) h = rw h (OneMore-downscaled saved m)

  upscaled-counts :
      (m : NamespaceMetricsHolder) (r : Session R C × Result (Unit {0}))
      → r.0.metrics ≡ some m
      → Counted m (upscaled kind api config r)
  unfolding upscaled Counted
  upscaled-counts m (s, err e) h = h
  upscaled-counts m (s, ok u) h = rw h (OneMore-upscaled m)

  downscale_to-counts :
      (m : NamespaceMetricsHolder) (replicas : Result Replicas) (s : Session R C)
      → s.metrics ≡ some m
      → Counted m (downscale_to kind api config replicas s)
  unfolding downscale_to downscale_workload Counted
  downscale_to-counts m (err e) s h = h
  downscale_to-counts m (ok replicas) s h =
      downscaled-counts m _ (stored_downscaled-metrics (kind.scale_down replicas s.workload) s ∙ h)

  scale_workload-counts :
      (m : NamespaceMetricsHolder) (wanted : Scaling) (scopes : Scopes) (s : Session R C)
      → s.metrics ≡ some m
      → Counted m (scale_workload kind api config wanted scopes s)
  unfolding scale_workload upscale_workload Counted
  scale_workload-counts m scaling_none scopes s h = rw h (OneMore-excluded m)
  scale_workload-counts m scaling_ignore scopes s h = rw h (OneMore-excluded m)
  scale_workload-counts m scaling_incomplete scopes s h = rw h (OneMore-excluded m)
  scale_workload-counts m scaling_multiple scopes s h = h
  scale_workload-counts m scaling_down scopes s h =
      downscale_to-counts m (get_downscale_replicas scopes) s h
  scale_workload-counts m scaling_up scopes s h =
      upscaled-counts m _ (stored_upscaled-metrics (kind.scale_up s.workload) s ∙ h)

  regotten-counts :
      (m : NamespaceMetricsHolder) (r : C × Result R) (s : Session R C)
      (next : Session R C → Session R C × Option Fault)
      → is_ok r.1 ≡ true
      → s.metrics ≡ some m
      → ((t : Session R C) → t.metrics ≡ some m → OneMore (next t).0.metrics m)
      → OneMore (regotten kind api config r s next).0.metrics m
  regotten-counts m (c, ok w) s next o h k = k _ h
  regotten-counts m (c, err e) s next o h k = cc o

  after_attempt-counts :
      (m : NamespaceMetricsHolder) (r : Session R C × Option Fault)
      (next : Session R C → Session R C × Option Fault)
      → ((w : R) (c : C) → is_ok (api.reget w c).1 ≡ true)
      → Counted m r
      → ((t : Session R C) → t.metrics ≡ some m → OneMore (next t).0.metrics m)
      → OneMore (after_attempt kind api config r next).0.metrics m
  unfolding after_attempt Counted
  after_attempt-counts m (s, none) next g h k = h
  after_attempt-counts m (s, some e) next g h k = elim (Bool-cases (is_conflict e)) [
    | inl c ↦
        rw c
          (regotten-counts m (api.reget s.workload s.cluster) s next (g s.workload s.cluster) h k)
    | inr n ↦ rw (n, h) (OneMore-error e m)
  ]

  attempts-counts :
      (n : ℕ) (m : NamespaceMetricsHolder) (wanted : Scaling) (scopes : Scopes) (s : Session R C)
      → ((w : R) (c : C) → is_ok (api.reget w c).1 ≡ true)
      → s.metrics ≡ some m
      → OneMore (attempts kind api config n wanted scopes s).0.metrics m
  unfolding attempts
  attempts-counts zero m wanted scopes s g h = rw h (OneMore-conflict m)
  attempts-counts (suc n) m wanted scopes s g h =
      after_attempt-counts m _ (attempts kind api config n wanted scopes) g
        (scale_workload-counts m wanted scopes s h) (λ t k. attempts-counts n m wanted scopes t g k)

  -- Whatever the decision is and whatever the API answers to updates, `attemptScaling` records
  -- exactly one outcome of the workload in the metrics of its namespace: scaled down, scaled up,
  -- excluded, or one kind of error. Metrics are enabled, and the API gives the object back whenever
  -- it is asked for it again.
  pub attempt_scaling-counts :
      (m : NamespaceMetricsHolder) (decision : ScalingDecision) (scopes : Scopes) (s : Session R C)
      → ((w : R) (c : C) → is_ok (api.reget w c).1 ≡ true)
      → s.metrics ≡ some m
      → outcomes (attempt_scaling kind api config decision scopes s).0.metrics
        ≡ suc (outcomes (some m))
  unfolding attempt_scaling
  attempt_scaling-counts m decision scopes s g h = attempts-counts _ m decision.scaling scopes s g h
