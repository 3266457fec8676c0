-- ===== src/Downscaler/Metering.antt =====
-- What the scaling of a workload does to the metrics: a list of calls that depends on nothing that
-- the holder has.
use go_kube_downscaler.Prelude.{
  ◌≡◌, refl, sym, ap, ◌∙◌, ℕ, zero, suc, ◌+ℤ◌, pos, pos_part, inl, inr, Bool-cases, Option, none,
  some, List, [], ◌∷◌, ◌++◌,
}
use go_kube_downscaler.Fault.{Fault, Result, ok, err}
use go_kube_downscaler.Replicas.{Replicas}
use go_kube_downscaler.Metrics.{SavedResources, Holder}
use go_kube_downscaler.Metrics.Calls.{
  Call, call, call_all, downscaled, upscaled, excluded, invalid_scaling_value, conflict, generic,
  saved,
}
use go_kube_downscaler.Scalable.{ScalingSummary}
use go_kube_downscaler.Values.{
  Scopes, Scaling, scaling_none, scaling_ignore, scaling_down, scaling_up, scaling_multiple,
  scaling_incomplete, ScalingDecision,
}
use go_kube_downscaler.Values.Query.{get_downscale_replicas}
use go_kube_downscaler.Workload.{
  Workload, Api, Session, updated, store_downscaled, downscale_workload, store_upscaled,
  upscale_workload,
}
use go_kube_downscaler.Downscaler.{
  Configuration, is_conflict, is_scaling_invalid, record_scaling_error, increment_saved, metered,
  downscale_to, scale_workload, regotten, after_attempt, attempts, attempt_scaling,
}
use go_kube_downscaler.Downscaler

pub call_all-append :
    (cs ds : List Call) (h : Holder) → call_all (cs ++ ds) h ≡ call_all ds (call_all cs h)
unfolding call_all
call_all-append [] ds h = refl
call_all-append (c ∷ cs) ds h = call_all-append cs ds (call c h)

module _ {R C : Type 0} where
  abbrev pub with_metrics : Holder → Session R C → Session R C
  with_metrics h s = record s { metrics = h }

  -- From this session, the function makes certain calls on whatever holder the session has, and all
  -- else that it does is the same with every holder.
  abbrev pub IsMetered {ℓ} : {A : Type ℓ} → (Session R C → Session R C × A) → Session R C → Type ℓ
  IsMetered f s =
      (cs : List Call) × ((h : Holder)
        → f (with_metrics h s) ≡ (with_metrics (call_all cs h) (f s).0, (f s).1))

  pub then-IsMetered {ℓ κ} :
      {A : Type ℓ} {B : Type κ} (f : Session R C → Session R C × A)
      (k : Session R C × A → Session R C × B) (s : Session R C)
      → IsMetered f s
      → ((t : Session R C) (a : A) → IsMetered (λ u. k (u, a)) t)
      → IsMetered (λ u. k (f u)) s
  then-IsMetered f k s (cs, e) m =
      let (ds, d) = m (f s).0 (f s).1 in
      (
        cs ++ ds,
        λ h.
            ap k (e h)
            ∙ d (call_all cs h)
            ∙ ap (λ g. (with_metrics g (k (f s)).0, (k (f s)).1)) (sym (call_all-append cs ds h)),
      )

  module _ (kind : Workload R) (api : Api R C) (config : Configuration) where
    updated-IsMetered {ℓ} :
        {A : Type ℓ} (w : R) (value : A) (r : C × Option Fault) (s : Session R C)
        → IsMetered (updated kind api config.dry_run w value r) s
    unfolding call_all
    updated-IsMetered w value (c, none) s = ([], λ h. refl)
    updated-IsMetered w value (c, some e) s = ([], λ h. refl)

    store_downscaled-IsMetered :
        (r : Result (R × ScalingSummary)) (s : Session R C)
        → IsMetered (store_downscaled kind api config.dry_run r) s
    unfolding store_downscaled call_all
    store_downscaled-IsMetered (err e) s = ([], λ h. refl)
    store_downscaled-IsMetered (ok (w, summary)) s = elim (Bool-cases summary.is_update_needed) [
      | inr n ↦ rw n ([], λ h. refl)
      | inl y ↦ elim (Bool-cases config.dry_run) [
        | inl d ↦ rw (y, d) ([], λ h. refl)
        | inr d ↦ rw (y, d) (updated-IsMetered w summary.saved_resources (api.update w s.cluster) s)
      ]
    ]

    store_upscaled-IsMetered :
        (r : Result (R × ScalingSummary)) (s : Session R C)
        → IsMetered (store_upscaled kind api config.dry_run r) s
    unfolding store_upscaled call_all
    store_upscaled-IsMetered (err e) s = ([], λ h. refl)
    store_upscaled-IsMetered (ok (w, summary)) s = elim (Bool-cases summary.is_update_needed) [
      | inr n ↦ rw n ([], λ h. refl)
      | inl y ↦ elim (Bool-cases config.dry_run) [
        | inl d ↦ rw (y, d) ([], λ h. refl)
        | inr d ↦ rw (y, d) (updated-IsMetered w tt (api.update w s.cluster) s)
      ]
    ]

    downscaled-IsMetered :
        (r : Result (Option SavedResources)) (s : Session R C)
        → IsMetered (λ u. Downscaler.downscaled kind api config (u, r)) s
    unfolding Downscaler.downscaled increment_saved call_all call
    downscaled-IsMetered (err e) s = ([], λ h. refl)
    downscaled-IsMetered (ok none) s = (downscaled ∷ [], λ h. refl)
    downscaled-IsMetered (ok (some r)) s = (downscaled ∷ saved r ∷ [], λ h. refl)

    upscaled-IsMetered :
        (r : Result (Unit {0})) (s : Session R C)
        → IsMetered (λ u. Downscaler.upscaled kind api config (u, r)) s
    unfolding Downscaler.upscaled call_all call
    upscaled-IsMetered (err e) s = ([], λ h. refl)
    upscaled-IsMetered (ok u) s = (upscaled ∷ [], λ h. refl)

    downscale_to-IsMetered :
        (r : Result Replicas) (s : Session R C) → IsMetered (downscale_to kind api config r) s
    unfolding downscale_to downscale_workload call_all
    downscale_to-IsMetered (err e) s = ([], λ h. refl)
    downscale_to-IsMetered (ok replicas) s =
        then-IsMetered (downscale_workload kind api config.dry_run replicas)
          (Downscaler.downscaled kind api config) s
          (store_downscaled-IsMetered (kind.scale_down replicas s.workload) s)
          (λ t r. downscaled-IsMetered r t)

    scale_workload-IsMetered :
        (wanted : Scaling) (scopes : Scopes) (s : Session R C)
        → IsMetered (scale_workload kind api config wanted scopes) s
    unfolding scale_workload upscale_workload call_all call
    scale_workload-IsMetered scaling_none scopes s = (excluded ∷ [], λ h. refl)
    scale_workload-IsMetered scaling_ignore scopes s = (excluded ∷ [], λ h. refl)
    scale_workload-IsMetered scaling_incomplete scopes s = (excluded ∷ [], λ h. refl)
    scale_workload-IsMetered scaling_multiple scopes s = ([], λ h. refl)
    scale_workload-IsMetered scaling_down scopes s =
        downscale_to-IsMetered (get_downscale_replicas scopes) s
    scale_workload-IsMetered scaling_up scopes s =
        then-IsMetered (upscale_workload kind api config.dry_run)
          (Downscaler.upscaled kind api config) s
          (store_upscaled-IsMetered (kind.scale_up s.workload) s) (λ t r. upscaled-IsMetered r t)

    record_scaling_error-IsMetered :
        (e : Fault) (s : Session R C)
        → IsMetered (λ u. (metered kind api config (record_scaling_error e) u, some e)) s
    unfolding record_scaling_error call_all call
    record_scaling_error-IsMetered e s = elim (Bool-cases (is_scaling_invalid e)) [
      | inl y ↦ rw y (invalid_scaling_value ∷ [], λ h. refl)
      | inr n ↦ rw n (generic ∷ [], λ h. refl)
    ]

    regotten-IsMetered :
        (r : C × Result R) (next : Session R C → Session R C × Option Fault) (s : Session R C)
        → ((t : Session R C) → IsMetered next t)
        → IsMetered (λ u. regotten kind api config r u next) s
    unfolding call_all
    regotten-IsMetered (c, err e) next s m = ([], λ h. refl)
    regotten-IsMetered (c, ok w) next s m = m (record s { workload = w; cluster = c })

    after_attempt-IsMetered :
        (a : Option Fault) (next : Session R C → Session R C × Option Fault) (s : Session R C)
        → ((t : Session R C) → IsMetered next t)
        → IsMetered (λ u. after_attempt kind api config (u, a) next) s
    unfolding after_attempt call_all
    after_attempt-IsMetered none next s m = ([], λ h. refl)
    after_attempt-IsMetered (some e) next s m = elim (Bool-cases (is_conflict e)) [
      | inl y ↦ rw y (regotten-IsMetered (api.reget s.workload s.cluster) next s m)
      | inr n ↦ rw n (record_scaling_error-IsMetered e s)
    ]

    attempts-IsMetered :
        (n : ℕ) (wanted : Scaling) (scopes : Scopes) (s : Session R C)
        → IsMetered (attempts kind api config n wanted scopes) s
    unfolding attempts call_all call
    attempts-IsMetered zero wanted scopes s = (conflict ∷ [], λ h. refl)
    attempts-IsMetered (suc n) wanted scopes s =
        then-IsMetered (scale_workload kind api config wanted scopes)
          (λ o. after_attempt kind api config o (attempts kind api config n wanted scopes)) s
          (scale_workload-IsMetered wanted scopes s)
          (λ t a.
            after_attempt-IsMetered a (attempts kind api config n wanted scopes) t
              (attempts-IsMetered n wanted scopes))

    pub attempt_scaling-IsMetered :
        (decision : ScalingDecision) (scopes : Scopes) (s : Session R C)
        → IsMetered (attempt_scaling kind api config decision scopes) s
    unfolding attempt_scaling
    attempt_scaling-IsMetered decision scopes s =
        attempts-IsMetered (pos_part (config.max_retries_on_conflict +ℤ pos 1)) decision.scaling
          scopes s
