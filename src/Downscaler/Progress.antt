-- ===== src/Downscaler/Progress.antt =====
-- When the retries of a scaling succeed.
use go_kube_downscaler.Prelude.{
  ℕ, zero, suc, ◌<◌, ◌≡◌, refl, true, Option, none, some, arith, pos, ◌+ℤ◌, ◌≤ℤ◌,
}
use go_kube_downscaler.Fault.{Fault, ok}
use go_kube_downscaler.Values.{Scopes, Scaling, ScalingDecision}
use go_kube_downscaler.Workload.{Workload, Api, Session}
use go_kube_downscaler.Downscaler.{
  is_conflict, Configuration, scale_workload, after_attempt, attempts, attempt_scaling,
}

module _ {R C : Type 0} (kind : Workload R) (api : Api R C) (config : Configuration) where
  -- After `k` conflicts, each followed by getting the object again, the scaling succeeds.
  unfoldable pub SettlesAfter : ℕ → Scaling → Scopes → Session R C → Type 0
  SettlesAfter zero wanted scopes s = (scale_workload kind api config wanted scopes s).1 ≡ none
  SettlesAfter (suc k) wanted scopes s =
      (t : Session R C) × (e : Fault) × (c : C) × (w : R) × (scale_workload kind api config wanted
          scopes s
        ≡ (t, some e))
      × (is_conflict e ≡ true)
      × (api.reget t.workload t.cluster ≡ (c, ok w))
      × SettlesAfter k wanted scopes (record t { workload = w; cluster = c })

  attempts-done :
      (n : ℕ) (wanted : Scaling) (scopes : Scopes) (s : Session R C)
      (r : Session R C × Option Fault)
      → r.1 ≡ none
      → (after_attempt kind api config r (attempts kind api config n wanted scopes)).1 ≡ none
  unfolding after_attempt
  attempts-done n wanted scopes s (t, none) h = refl
  attempts-done n wanted scopes s (t, some e) h = cc h

  attempts-settle :
      (n k : ℕ) (wanted : Scaling) (scopes : Scopes) (s : Session R C)
      → SettlesAfter k wanted scopes s
      → k < n
      → (attempts kind api config n wanted scopes s).1 ≡ none
  unfolding attempts after_attempt SettlesAfter
  attempts-settle zero k wanted scopes s h l = absurd (omega arith)
  attempts-settle (suc n) zero wanted scopes s h l =
      attempts-done n wanted scopes s (scale_workload kind api config wanted scopes s) h
  attempts-settle (suc n) (suc k) wanted scopes s h l =
      let (t, e, c, w, p, q, g, rest) = h in
      rw (p, q, g)
        (attempts-settle n k wanted scopes (record t { workload = w; cluster = c }) rest
          (omega arith))

  -- `attemptScaling` succeeds if the scaling does after at most as many conflicts as retries are
  -- configured.
  pub attempt_scaling-settles :
      (k : ℕ) (decision : ScalingDecision) (scopes : Scopes) (s : Session R C)
      → SettlesAfter k decision.scaling scopes s
      → pos k ≤ℤ config.max_retries_on_conflict
      → (attempt_scaling kind api config decision scopes s).1 ≡ none
  unfolding attempt_scaling ◌+ℤ◌
  attempt_scaling-settles k decision scopes s h l =
      attempts-settle _ k decision.scaling scopes s h (ground arith)
