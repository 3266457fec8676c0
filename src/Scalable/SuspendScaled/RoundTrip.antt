-- ===== src/Scalable/SuspendScaled/RoundTrip.antt =====
-- Suspending a workload and resuming it.
use mathlib.Core.Path.{subst}
use go_kube_downscaler.Prelude.{
  ◌≡◌, refl, sym, ap, ◌∙◌, Bool, true, false, some, Bool-cases, inl, inr,
}
use go_kube_downscaler.Fault.{Result, ok, err, ok-injective}
use go_kube_downscaler.Text.{Text}
use go_kube_downscaler.Dict.{Dict, lookup}
use go_kube_downscaler.Replicas.{Replicas, boolean, as_bool}
use go_kube_downscaler.Scalable.{
  ScalingSummary, no_summary, replicas_eq, set_original_replicas, get_original_replicas,
  remove_original_replicas, is_original_replicas_unset,
}
use go_kube_downscaler.Scalable.Annotations.{
  AnnotationLaws, annotation-set_original, annotation-remove, original-removed,
  get_original-set_original,
}
use go_kube_downscaler.Scalable.Restored.{IsRestored}
use go_kube_downscaler.Scalable.SuspendScaled.{
  SuspendScaledResource, scale_up, scale_down, stay, unsuspend, suspend,
}

pub record SuspendLaws {R : Type 0} (ops : SuspendScaledResource R) : Type 0 where
  pub annotations : AnnotationLaws ops.base
  pub state : (w : R) → (b : Bool) × (ops.get_suspend w ≡ (boolean b, boolean true))
  pub get_set :
      (b : Bool) (w : R) → ops.get_suspend (ops.set_suspend b w) ≡ (boolean b, boolean true)
  pub get_frame :
      (a : Dict Text) (w : R) → ops.get_suspend (ops.base.set_annotations a w) ≡ ops.get_suspend w
  pub set_frame :
      (b : Bool) (w : R)
      → ops.base.get_annotations (ops.set_suspend b w) ≡ ops.base.get_annotations w

module _ {R : Type 0} (ops : SuspendScaledResource R) (laws : SuspendLaws ops) where
  open ops use {base, get_suspend, set_suspend}

  stay_updates_not :
      (w w1 : R) (o : Result Replicas) (s : ScalingSummary)
      → stay ops w o ≡ ok (w1, s)
      → (s.is_update_needed ≡ false) × (w1 ≡ w)
  unfolding stay
  stay_updates_not w w1 (ok r) s h = (
    sym (ap (λ (p : R × ScalingSummary). p.1.is_update_needed) (ok-injective h)),
    sym (ap (λ (p : R × ScalingSummary). p.0) (ok-injective h)),
  )
  stay_updates_not w w1 (err e) s h = elim (Bool-cases (is_original_replicas_unset e)) [
    | inl u ↦ (
      sym (ap (λ (p : R × ScalingSummary). p.1.is_update_needed) (ok-injective (rw u at h))),
      sym (ap (λ (p : R × ScalingSummary). p.0) (ok-injective (rw u at h))),
    )
    | inr o ↦ cc (rw o at h)
  ]

  suspended_from :
      (w w1 : R) (target : Replicas) (s : ScalingSummary) (b : Bool)
      → get_suspend w ≡ (boolean b, boolean true)
      → scale_down ops target w ≡ ok (w1, s)
      → s.is_update_needed ≡ true
      → (get_suspend w ≡ (boolean false, boolean true))
        × (w1 ≡ set_original_replicas base (boolean false) (set_suspend true w))
  unfolding scale_down suspend replicas_eq
  suspended_from w w1 target s true g h u =
      cc ((stay_updates_not w w1 (get_original_replicas base w) s (rw g at h)).0)
  suspended_from w w1 target s false g h u =
      (g, sym (ap (λ (p : R × ScalingSummary). p.0) (ok-injective (rw g at h))))

  -- A `ScaleDown` that asks for an update found the workload running, and suspended it.
  suspended :
      (w w1 : R) (target : Replicas) (s : ScalingSummary)
      → scale_down ops target w ≡ ok (w1, s)
      → s.is_update_needed ≡ true
      → (get_suspend w ≡ (boolean false, boolean true))
        × (w1 ≡ set_original_replicas base (boolean false) (set_suspend true w))
  suspended w w1 target s h u = let (b, g) = laws.state w in suspended_from w w1 target s b g h u

  scale_up-at :
      (w : R) (b : Bool)
      → get_original_replicas base w ≡ ok (boolean b)
      → scale_up ops w
        ≡ ok (
          remove_original_replicas base (set_suspend b w),
          record no_summary {
            is_update_needed = true;
            from = some (get_suspend w).0;
            to = some (boolean b);
          },
        )
  unfolding scale_up unsuspend as_bool
  scale_up-at w b o = rw o refl

  restored :
      (w : R)
      → get_suspend w ≡ (boolean false, boolean true)
      → IsRestored base laws.annotations
          (scale_up ops)
          get_suspend
          w
          (set_original_replicas base (boolean false) (set_suspend true w))
  unfolding remove_original_replicas
  restored w g =
      let noted = set_original_replicas base (boolean false) (set_suspend true w) in
      let resumed = set_suspend false noted in
      record {
        result = remove_original_replicas base resumed;
        summary = _;
        scaled_up = scale_up-at noted false (
            get_original-set_original base laws.annotations (boolean false) (set_suspend true w)
              tt);
        updated = refl;
        same_state = laws.get_frame _ resumed ∙ laws.get_set false noted ∙ sym g;
        no_note = original-removed base laws.annotations resumed;
        others = λ k n.
            annotation-remove base laws.annotations k resumed n
            ∙ ap (lookup k) (laws.set_frame false noted)
            ∙ annotation-set_original base laws.annotations k (boolean false) (set_suspend true w) n
            ∙ ap (lookup k) (laws.set_frame true w);
      }

  -- After a `ScaleDown` that asked for an update, a `ScaleUp` succeeds and asks for one, and gives
  -- back the suspend state of before and every annotation but the note, which is gone.
  pub unsuspend-suspend :
      (w w1 : R) (target : Replicas) (s : ScalingSummary)
      → scale_down ops target w ≡ ok (w1, s)
      → s.is_update_needed ≡ true
      → IsRestored base laws.annotations (scale_up ops) get_suspend w w1
  unsuspend-suspend w w1 target s h u =
      let (g, p) = suspended w w1 target s h u in
      subst (IsRestored base laws.annotations (scale_up ops) get_suspend w) (sym p) (restored w g)

  suspends_from :
      (w w1 : R) (target : Replicas) (s : ScalingSummary) (b : Bool)
      → get_suspend w ≡ (boolean b, boolean true)
      → scale_down ops target w ≡ ok (w1, s)
      → get_suspend w1 ≡ (boolean true, boolean true)
  unfolding scale_down suspend replicas_eq set_original_replicas
  suspends_from w w1 target s true g h =
      ap get_suspend ((stay_updates_not w w1 (get_original_replicas base w) s (rw g at h)).1) ∙ g
  suspends_from w w1 target s false g h =
      ap get_suspend (sym (ap (λ (p : R × ScalingSummary). p.0) (ok-injective (rw g at h))))
      ∙ laws.get_frame _ (set_suspend true w)
      ∙ laws.get_set true w

  -- A `ScaleDown` that succeeds leaves the workload suspended, whatever it was before and whether
  -- or not an update is asked for.
  pub scale_down-suspends :
      (w w1 : R) (target : Replicas) (s : ScalingSummary)
      → scale_down ops target w ≡ ok (w1, s)
      → get_suspend w1 ≡ (boolean true, boolean true)
  scale_down-suspends w w1 target s h =
      let (b, g) = laws.state w in suspends_from w w1 target s b g h
