-- ===== src/Scalable/NodeSelectorScaled/RoundTrip.antt =====
-- Setting the label in a workload's node selector and removing it.
use mathlib.Core.Path.{subst, fun_ext}
use go_kube_downscaler.Prelude.{
  ◌≡◌, refl, sym, ap, ◌∙◌, Bool, true, false, Option, some, String, Bool-cases, inl, inr, arith,
  is_some, str_eq_iff,
}
use go_kube_downscaler.Fault.{Result, ok, err, ok-injective, >>=-eq-ok}
use go_kube_downscaler.Text.{Text}
use go_kube_downscaler.Dict.{Dict, lookup, insert, delete, lookup-insert, lookup-delete}
use go_kube_downscaler.Metrics.{SavedResources}
use go_kube_downscaler.Replicas.{Replicas, boolean}
use go_kube_downscaler.Scalable.{
  ScalingSummary, no_summary, set_original_replicas, get_original_replicas,
  remove_original_replicas, is_original_replicas_unset,
}
use go_kube_downscaler.Scalable.Annotations.{
  AnnotationLaws, annotation-set_original, annotation-remove, original-removed,
  get_original-set_original,
}
use go_kube_downscaler.Scalable.Restored.{IsRestored}
use go_kube_downscaler.Scalable.NodeSelectorScaled.{
  NodeSelectorScaledResource, label_match_none, label_match_none_value, scale_up, scale_down, stay,
  scale_up_selector, scale_down_selector, unmatch, match_none,
}

pub record NodeSelectorLaws {R : Type 0} (ops : NodeSelectorScaledResource R) : Type 0 where
  pub annotations : AnnotationLaws ops.base
  pub get_set : (m : Dict Text) (w : R) → ops.get_node_selector (ops.set_node_selector m w) ≡ m
  pub get_frame :
      (a : Dict Text) (w : R)
      → ops.get_node_selector (ops.base.set_annotations a w) ≡ ops.get_node_selector w
  pub set_frame :
      (m : Dict Text) (w : R)
      → ops.base.get_annotations (ops.set_node_selector m w) ≡ ops.base.get_annotations w

-- A label that was absent is absent again, and the other labels are as before.
lookup-delete-insert :
    (k j : String) (v : Text) (m : Dict Text)
    → is_some (lookup k m) ≡ false
    → lookup j (delete k (insert k v m)) ≡ lookup j m
lookup-delete-insert k j v m h =
    lookup-delete k j (insert k v m) ∙ ground (arith, lookup-insert k j v m, str_eq_iff k j)

module _ {R : Type 0} (ops : NodeSelectorScaledResource R) (laws : NodeSelectorLaws ops) where
  open ops use {base, get_node_selector, set_node_selector}

  -- What a node selector asks for: the value of every label.
  abbrev pub required : R → String → Option Text
  required w k = lookup k (get_node_selector w)

  stay_updates_not :
      (w : R) (o : Result Replicas) (r : R × SavedResources × Bool)
      → stay ops w o ≡ ok r
      → r.2 ≡ false
  unfolding stay
  stay_updates_not w (ok original) r h =
      sym (ap (λ (p : R × SavedResources × Bool). p.2) (ok-injective h))
  stay_updates_not w (err e) r h = elim (Bool-cases (is_original_replicas_unset e)) [
    | inl u ↦ sym (ap (λ (p : R × SavedResources × Bool). p.2) (ok-injective (rw u at h)))
    | inr o ↦ cc (rw o at h)
  ]

  selected :
      (w : R) (r : R × SavedResources × Bool)
      → scale_down_selector ops w ≡ ok r
      → r.2 ≡ true
      → (is_some (required w label_match_none) ≡ false)
        × (r.0 ≡ set_original_replicas base (boolean false) (match_none ops w))
  unfolding scale_down_selector
  selected w r h u = elim (Bool-cases (is_some (required w label_match_none))) [
    | inl e ↦ cc (stay_updates_not w (get_original_replicas base w) r (rw e at h))
    | inr d ↦ (d, sym (ap (λ (p : R × SavedResources × Bool). p.0) (ok-injective (rw d at h))))
  ]

  -- A `ScaleDown` that asks for an update found no label, and set it.
  matched_none :
      (w w1 : R) (target : Replicas) (s : ScalingSummary)
      → scale_down ops target w ≡ ok (w1, s)
      → s.is_update_needed ≡ true
      → (is_some (required w label_match_none) ≡ false)
        × (w1 ≡ set_original_replicas base (boolean false) (match_none ops w))
  unfolding scale_down
  matched_none w w1 target s h u =
      let (r, e, p) = >>=-eq-ok (scale_down_selector ops w) _ h in
      let (d, q) =
        selected w r e
          (ap (λ (x : R × ScalingSummary). x.1.is_update_needed) (ok-injective p) ∙ u) in
      (d, sym (ap (λ (x : R × ScalingSummary). x.0) (ok-injective p)) ∙ q)

  scale_up-at :
      (w : R) (r : Replicas)
      → get_original_replicas base w ≡ ok r
      → scale_up ops w
        ≡ ok (
          remove_original_replicas base (unmatch ops w),
          record no_summary {
            is_update_needed = true;
            from = some (boolean true);
            to = some (boolean false);
          },
        )
  unfolding scale_up scale_up_selector
  scale_up-at w r o = rw o refl

  required_again :
      (w : R) (a b : Dict Text) (k : String)
      → is_some (required w label_match_none) ≡ false
      → required
          (base.set_annotations b (unmatch ops (base.set_annotations a (match_none ops w))))
          k
        ≡ required w k
  required_again w a b k h =
      ap (lookup k) (
        laws.get_frame b _
        ∙ laws.get_set _ _
        ∙ ap (delete label_match_none) (laws.get_frame a _ ∙ laws.get_set _ _))
      ∙ lookup-delete-insert label_match_none k label_match_none_value (get_node_selector w) h

  restored :
      (w : R)
      → is_some (required w label_match_none) ≡ false
      → IsRestored base laws.annotations
          (scale_up ops)
          required
          w
          (set_original_replicas base (boolean false) (match_none ops w))
  unfolding remove_original_replicas set_original_replicas
  restored w d =
      let noted = set_original_replicas base (boolean false) (match_none ops w) in
      let freed = unmatch ops noted in
      record {
        result = remove_original_replicas base freed;
        summary = _;
        scaled_up =
            scale_up-at noted (boolean false) (
              get_original-set_original base laws.annotations (boolean false) (match_none ops w)
                tt);
        updated = refl;
        same_state = fun_ext (λ k. required_again w _ _ k d);
        no_note = original-removed base laws.annotations freed;
        others = λ k n.
            annotation-remove base laws.annotations k freed n
            ∙ ap (lookup k) (laws.set_frame _ noted)
            ∙ annotation-set_original base laws.annotations k (boolean false) (match_none ops w) n
            ∙ ap (lookup k) (laws.set_frame _ w);
      }

  -- After a `ScaleDown` that asked for an update, a `ScaleUp` succeeds and asks for one, and the
  -- node selector asks for the labels of before, and every annotation but the note is as before;
  -- the note is gone.
  pub unmatch-match_none :
      (w w1 : R) (target : Replicas) (s : ScalingSummary)
      → scale_down ops target w ≡ ok (w1, s)
      → s.is_update_needed ≡ true
      → IsRestored base laws.annotations (scale_up ops) required w w1
  unmatch-match_none w w1 target s h u =
      let (d, p) = matched_none w w1 target s h u in
      subst (IsRestored base laws.annotations (scale_up ops) required w) (sym p) (restored w d)
