-- ===== src/Scalable/ValueScaled/RoundTrip.antt =====
-- Changing the value of a workload's field and changing it back.
use mathlib.Core.Path.{subst}
use go_kube_downscaler.Prelude.{◌≡◌, refl, sym, ap, ◌∙◌, true, false, some, Bool-cases, inl, inr}
use go_kube_downscaler.Fault.{Result, ok, err, ok-injective, >>=-eq-ok}
use go_kube_downscaler.Text.{Text}
use go_kube_downscaler.Dict.{Dict, lookup}
use go_kube_downscaler.Replicas.{Replicas}
use go_kube_downscaler.Replicas.RoundTrip.{IsStorable}
use go_kube_downscaler.Scalable.{
  ScalingSummary, no_summary, replicas_eq, set_original_replicas, get_original_replicas,
  remove_original_replicas, is_original_replicas_unset,
}
use go_kube_downscaler.Scalable.Annotations.{
  AnnotationLaws, annotation-set_original, annotation-remove, original-removed,
  get_original-set_original,
}
use go_kube_downscaler.Scalable.Restored.{IsRestored}
use go_kube_downscaler.Scalable.ValueScaled.{
  ValueScaledResource, scale_up, scale_down, stay, restore, lower_to, stay_or_lower,
}

-- `target` is the value that every workload of the kind is scaled down to, and `CanHold v` says
-- that `setValue` accepts `v`.
pub record ValueLaws {R : Type 0} (ops : ValueScaledResource R) (target : Replicas)
    (CanHold : Replicas → Type 0) : Type 0 where
  pub annotations : AnnotationLaws ops.base
  pub get_set :
      (v : Replicas) (w : R)
      → CanHold v
      → (w' : R) × (ops.set_value v w ≡ ok w') × (ops.get_value w' ≡ ok (v, target))
  pub get_ok :
      (v : Replicas) (w w' : R)
      → ops.set_value v w ≡ ok w'
      → (r : Replicas) × (ops.get_value w' ≡ ok (r, target))
  pub get_frame :
      (a : Dict Text) (w : R) → ops.get_value (ops.base.set_annotations a w) ≡ ops.get_value w
  pub set_frame :
      (v : Replicas) (w w' : R)
      → ops.set_value v w ≡ ok w'
      → ops.base.get_annotations w' ≡ ops.base.get_annotations w

module _ {R : Type 0} (ops : ValueScaledResource R) (target : Replicas)
    (CanHold : Replicas → Type 0) (laws : ValueLaws ops target CanHold) where
  open ops use {base, set_value, get_value}

  stay_updates_not :
      (w w1 : R) (current : Replicas) (o : Result Replicas) (s : ScalingSummary)
      → stay ops w current target o ≡ ok (w1, s)
      → s.is_update_needed ≡ false
  unfolding stay
  stay_updates_not w w1 current (ok r) s h =
      sym (ap (λ (p : R × ScalingSummary). p.1.is_update_needed) (ok-injective h))
  stay_updates_not w w1 current (err e) s h = elim (Bool-cases (is_original_replicas_unset e)) [
    | inl u ↦ sym (ap (λ (p : R × ScalingSummary). p.1.is_update_needed) (ok-injective (rw u at h)))
    | inr o ↦ cc (rw o at h)
  ]

  -- A `ScaleDown` that asks for an update has set the target's value and noted the old one.
  lowered :
      (w w1 : R) (current ignored : Replicas) (s : ScalingSummary)
      → get_value w ≡ ok (current, target)
      → scale_down ops ignored w ≡ ok (w1, s)
      → s.is_update_needed ≡ true
      → (w' : R) × (set_value target w ≡ ok w') × (w1 ≡ set_original_replicas base current w')
  unfolding scale_down stay_or_lower lower_to
  lowered w w1 current ignored s g h u = elim (Bool-cases (replicas_eq current target)) [
    | inl e ↦ cc (stay_updates_not w w1 current (get_original_replicas base w) s (rw (g, e) at h))
    | inr d ↦
        let (w', e, p) = >>=-eq-ok (set_value target w) _ (rw (g, d) at h) in
        (w', e, sym (ap (λ (q : R × ScalingSummary). q.0) (ok-injective p)))
  ]

  scale_up-at :
      (w w2 : R) (r v : Replicas)
      → get_value w ≡ ok (r, target)
      → get_original_replicas base w ≡ ok v
      → set_value v w ≡ ok w2
      → scale_up ops w
        ≡ ok (
          remove_original_replicas base w2,
          record no_summary { is_update_needed = true; from = some r; to = some v },
        )
  unfolding scale_up restore
  scale_up-at w w2 r v g o e = rw (g, o, e) refl

  restored :
      (w w' : R) (current : Replicas)
      → IsStorable current
      → CanHold current
      → get_value w ≡ ok (current, target)
      → set_value target w ≡ ok w'
      → IsRestored base laws.annotations
          (scale_up ops)
          get_value
          w
          (set_original_replicas base current w')
  unfolding remove_original_replicas set_original_replicas
  restored w w' current st c g e =
      let noted = set_original_replicas base current w' in
      let (r, gr) = laws.get_ok target w w' e in
      let (w2, e2, g2) = laws.get_set current noted c in
      record {
        result = remove_original_replicas base w2;
        summary = _;
        scaled_up =
            scale_up-at noted w2 r current (laws.get_frame _ w' ∙ gr)
              (get_original-set_original base laws.annotations current w' st) e2;
        updated = refl;
        same_state = laws.get_frame _ w2 ∙ g2 ∙ sym g;
        no_note = original-removed base laws.annotations w2;
        others = λ k n.
            annotation-remove base laws.annotations k w2 n
            ∙ ap (lookup k) (laws.set_frame current noted w2 e2)
            ∙ annotation-set_original base laws.annotations k current w' n
            ∙ ap (lookup k) (laws.set_frame target w w' e);
      }

  -- After a `ScaleDown` that asked for an update, a `ScaleUp` succeeds and asks for one, and gives
  -- back the value of before and every annotation but the note, which is gone. The value of before
  -- is one that the annotation can store and that `setValue` accepts.
  pub scale_up-change :
      (w w1 : R) (current ignored : Replicas) (s : ScalingSummary)
      → IsStorable current
      → CanHold current
      → get_value w ≡ ok (current, target)
      → scale_down ops ignored w ≡ ok (w1, s)
      → s.is_update_needed ≡ true
      → IsRestored base laws.annotations (scale_up ops) get_value w w1
  scale_up-change w w1 current ignored s st c g h u =
      let (w', e, p) = lowered w w1 current ignored s g h u in
      subst (IsRestored base laws.annotations (scale_up ops) get_value w) (sym p)
        (restored w w' current st c g e)
