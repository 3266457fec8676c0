-- ===== src/Downscaler/Calls.antt =====
-- Which calls the scaling of one workload makes to the API.
use go_kube_downscaler.Prelude.{
  ℕ, zero, suc, ◌+◌, ◌≤◌, ◌≡◌, refl, sym, true, false, Option, none, some, arith, inl, inr,
  Bool-cases, pos, pos_part, ◌+ℤ◌,
}
use go_kube_downscaler.Fault.{Fault, Result, ok, err}
use go_kube_downscaler.Metrics.{SavedResources}
use go_kube_downscaler.Replicas.{Replicas}
use go_kube_downscaler.Scalable.{ScalingSummary}
use go_kube_downscaler.Values.{
  Scopes, Scaling, scaling_none, scaling_ignore, scaling_down, scaling_up, scaling_multiple,
  scaling_incomplete, ScalingDecision,
}
use go_kube_downscaler.Values.Query.{get_downscale_replicas}
use go_kube_downscaler.Workload.{
  Workload, Api, Session, updated, store_downscaled, downscale_workload, store_upscaled,
  upscale_workload,
}
use go_kube_downscaler.Downscaler.{
  is_conflict, Configuration, downscaled, downscale_to, upscaled, scale_workload, regotten,
  after_attempt, attempts, attempt_scaling,
}

module _ {R C : Type 0} (kind : Workload R) (api : Api R C) (config : Configuration) where
  updated-cluster {ℓ} :
      {A : Type ℓ} (w : R) (value : A) (r : C × Option Fault) (s : Session R C)
      → (updated kind api config.dry_run w value r s).0.cluster ≡ r.0
  updated-cluster w value (c, none) s = refl
  updated-cluster w value (c, some e) s = refl

  downscaled-cluster :
      (r : Session R C × Result (Option SavedResources))
      → (downscaled kind api config r).0.cluster ≡ r.0.cluster
  unfolding downscaled
  downscaled-cluster (s, err e) = refl
  downscaled-cluster (s, ok saved) = refl

  upscaled-cluster :
      (r : Session R C × Result (Unit {0})) → (upscaled kind api config r).0.cluster ≡ r.0.cluster
  unfolding upscaled
  upscaled-cluster (s, err e) = refl
  upscaled-cluster (s, ok u) = refl

  -- A relation of the clusters before and after that every update keeps holds across one scaling.
  module _ (P : C → C → Type 0) (same : (c : C) → P c c)
      (wet : (w : R) (c : C) → config.dry_run ≡ false → P c (api.update w c).0) where
    stored_downscaled-keeps :
        (r : Result (R × ScalingSummary)) (s : Session R C)
        → P s.cluster (store_downscaled kind api config.dry_run r s).0.cluster
    unfolding store_downscaled
    stored_downscaled-keeps (err e) s = same s.cluster
    stored_downscaled-keeps (ok (w, summary)) s = elim (Bool-cases summary.is_update_needed) [
      | inl u ↦ elim (Bool-cases config.dry_run) [
        | inl d ↦ rw (u, d) (same s.cluster)
        | inr d ↦
            rw (u, d, updated-cluster w summary.saved_resources (api.update w s.cluster) s)
              (wet w s.cluster d)
      ]
      | inr n ↦ rw n (same s.cluster)
    ]

    stored_upscaled-keeps :
        (r : Result (R × ScalingSummary)) (s : Session R C)
        → P s.cluster (store_upscaled kind api config.dry_run r s).0.cluster
    unfolding store_upscaled
    stored_upscaled-keeps (err e) s = same s.cluster
    stored_upscaled-keeps (ok (w, summary)) s = elim (Bool-cases summary.is_update_needed) [
      | inl u ↦ elim (Bool-cases config.dry_run) [
        | inl d ↦ rw (u, d) (same s.cluster)
        | inr d ↦ rw (u, d, updated-cluster {0} w tt (api.update w s.cluster) s) (wet w s.cluster d)
      ]
      | inr n ↦ rw n (same s.cluster)
    ]

    downscale_to-keeps :
        (replicas : Result Replicas) (s : Session R C)
        → P s.cluster (downscale_to kind api config replicas s).0.cluster
    unfolding downscale_to downscale_workload
    downscale_to-keeps (err e) s = same s.cluster
    downscale_to-keeps (ok replicas) s =
        rw (downscaled-cluster (downscale_workload kind api config.dry_run replicas s))
          (stored_downscaled-keeps (kind.scale_down replicas s.workload) s)

    -- One scaling makes at most one update, and none in a dry run.
    scale_workload-keeps :
        (wanted : Scaling) (scopes : Scopes) (s : Session R C)
        → P s.cluster (scale_workload kind api config wanted scopes s).0.cluster
    unfolding scale_workload upscale_workload
    scale_workload-keeps scaling_none scopes s = same s.cluster
    scale_workload-keeps scaling_ignore scopes s = same s.cluster
    scale_workload-keeps scaling_incomplete scopes s = same s.cluster
    scale_workload-keeps scaling_multiple scopes s = same s.cluster
    scale_workload-keeps scaling_down scopes s =
        downscale_to-keeps (get_downscale_replicas scopes) s
    scale_workload-keeps scaling_up scopes s =
        rw (upscaled-cluster (upscale_workload kind api config.dry_run s))
          (stored_upscaled-keeps (kind.scale_up s.workload) s)

  -- In a dry run, scaling a workload leaves the cluster as it is, whatever the scaling is and
  -- whatever the API would do.
  pub scale_workload-dry_run :
      (wanted : Scaling) (scopes : Scopes) (s : Session R C)
      → config.dry_run ≡ true
      → (scale_workload kind api config wanted scopes s).0.cluster ≡ s.cluster
  scale_workload-dry_run wanted scopes s d =
      sym (scale_workload-keeps (λ c c'. c ≡ c') (λ c. refl) (λ w c f. cc (d, f)) wanted scopes s)

  -- `calls` counts the updates that the cluster has seen.
  module _ (calls : C → ℕ) (one_call : (w : R) (c : C) → calls (api.update w c).0 ≤ suc (calls c))
      (no_call : (w : R) (c : C) → calls (api.reget w c).0 ≤ calls c) where
    regotten-calls :
        (n : ℕ) (r : C × Result R) (s : Session R C)
        (next : Session R C → Session R C × Option Fault)
        → ((t : Session R C) → calls (next t).0.cluster ≤ n + calls t.cluster)
        → calls (regotten kind api config r s next).0.cluster ≤ n + calls r.0
    regotten-calls n (c, err e) s next k = omega arith
    regotten-calls n (c, ok w) s next k = k _

    after_attempt-calls :
        (n : ℕ) (r : Session R C × Option Fault) (next : Session R C → Session R C × Option Fault)
        → ((t : Session R C) → calls (next t).0.cluster ≤ n + calls t.cluster)
        → calls (after_attempt kind api config r next).0.cluster ≤ n + calls r.0.cluster
    unfolding after_attempt
    after_attempt-calls n (s, none) next k = omega arith
    after_attempt-calls n (s, some e) next k = elim (Bool-cases (is_conflict e)) [
      | inl c ↦
          let a = regotten-calls n (api.reget s.workload s.cluster) s next k in
          let b = no_call s.workload s.cluster in rw c (omega arith)
      | inr o ↦ rw o (omega arith)
    ]

    attempts-calls :
        (n : ℕ) (wanted : Scaling) (scopes : Scopes) (s : Session R C)
        → calls (attempts kind api config n wanted scopes s).0.cluster ≤ n + calls s.cluster
    unfolding attempts
    attempts-calls zero wanted scopes s = omega arith
    attempts-calls (suc n) wanted scopes s =
        let a =
          after_attempt-calls n (scale_workload kind api config wanted scopes s)
            (attempts kind api config n wanted scopes) (attempts-calls n wanted scopes) in
        let b =
          scale_workload-keeps (λ c c'. calls c' ≤ suc (calls c)) (λ c. omega arith)
            (λ w c f. one_call w c) wanted scopes s in
        omega arith

    -- `attemptScaling` updates the workload at most once for every attempt, which are the
    -- configured retries and one more, however often the API reports a conflict. An update counts
    -- as one call, and getting the object again as none.
    pub attempt_scaling-calls :
        (decision : ScalingDecision) (scopes : Scopes) (s : Session R C)
        → calls (attempt_scaling kind api config decision scopes s).0.cluster
          ≤ pos_part (config.max_retries_on_conflict +ℤ pos 1) + calls s.cluster
    unfolding attempt_scaling
    attempt_scaling-calls decision scopes s = attempts-calls _ decision.scaling scopes s
