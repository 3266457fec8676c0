-- ===== src/Scalable/ReplicaScaled/RoundTrip.antt =====
-- Scaling down and up again, for every resource that keeps the laws of its interface.
use mathlib.Core.Path.{subst}
use go_kube_downscaler.Replicas.RoundTrip.{IsStorable}
use go_kube_downscaler.Prelude.{
  ◌≡◌, ◌∙◌, refl, sym, Bool, true, false, String, none, some, ℤ, IsInt32, str_eq,
}
use go_kube_downscaler.Fault.{ok}
use go_kube_downscaler.Replicas.{Replicas, absolute, as_int32}
use go_kube_downscaler.Scalable.{
  annotation_original_replicas, ScalingSummary, no_summary, set_original_replicas,
  get_original_replicas, remove_original_replicas,
}
use go_kube_downscaler.Scalable.Annotations.{
  annotation, annotation-set_original, annotation-remove, original-removed,
  get_original-set_original,
}
use go_kube_downscaler.Scalable.ReplicaScaled.Laws.{ReplicaLaws}
use go_kube_downscaler.Scalable.ReplicaScaled.{ReplicaScaledResource, restore, scale_up, scale_down}
use go_kube_downscaler.Scalable.ReplicaScaled.Lowering.{
  scale_down_updates, get-set_original, get-remove,
}

module _ {R : Type 0} (ops : ReplicaScaledResource R) (CanHold : R → ℤ → Type 0)
    (owns : String → Bool) (laws : ReplicaLaws ops CanHold owns) where
  open ops use {base, set_replicas, get_replicas}

  scale_up-at :
      (w w2 : R) (r : Replicas) (c : ℤ)
      → get_replicas w ≡ ok r
      → get_original_replicas base w ≡ ok (absolute c)
      → set_replicas c w ≡ ok w2
      → scale_up ops w
        ≡ ok (
          remove_original_replicas base w2,
          record no_summary { is_update_needed = true; from = some r; to = some (absolute c) },
        )
  unfolding scale_up restore as_int32
  scale_up-at w w2 r c g o e = rw (g, o, e) refl

  -- `w2` is `w` again, so far as its replicas and its annotations show, with no note left.
  pub record IsRestored (w w1 : R) (c : ℤ) : Type 0 where
    pub result : R
    pub summary : ScalingSummary
    pub scaled_up : scale_up ops w1 ≡ ok (result, summary)
    pub updated : summary.is_update_needed ≡ true
    pub replicas : get_replicas result ≡ ok (absolute c)
    pub no_note : annotation base laws.annotations annotation_original_replicas result ≡ none
    pub others :
        (k : String)
        → owns k ≡ false
        → str_eq annotation_original_replicas k ≡ false
        → annotation base laws.annotations k result ≡ annotation base laws.annotations k w

  IsRestored-of_noted :
      (w w' : R) (c n : ℤ)
      → IsInt32 n
      → IsStorable (absolute c)
      → CanHold w c
      → set_replicas n w ≡ ok w'
      → IsRestored w (set_original_replicas base (absolute c) w') c
  unfolding set_original_replicas
  IsRestored-of_noted w w' c n i st h e =
      let noted = set_original_replicas base (absolute c) w' in
      let (r, gr) = laws.get_ok n w w' i e in
      let (w2, e2, g2) =
        laws.get_set c noted (laws.hold_annotations _ w' c (laws.hold_set n c w w' e h)) in
      record {
        result = remove_original_replicas base w2;
        summary = record no_summary {
          is_update_needed = true;
          from = some r;
          to = some (absolute c);
        };
        scaled_up =
            scale_up-at noted w2 r c (get-set_original ops CanHold owns laws (absolute c) w' ∙ gr)
              (get_original-set_original base laws.annotations (absolute c) w' st) e2;
        updated = refl;
        replicas = get-remove ops CanHold owns laws w2 ∙ g2;
        no_note = original-removed base laws.annotations w2;
        others = λ k o k'.
            annotation-remove base laws.annotations k w2 k'
            ∙ laws.set_frame c noted w2 k e2 o
            ∙ annotation-set_original base laws.annotations k (absolute c) w' k'
            ∙ laws.set_frame n w w' k e o;
      }

  -- After a `ScaleDown` that asked for an update, a `ScaleUp` succeeds and asks for one, and gives
  -- back the replicas of before and every annotation but those that hold the count and the note;
  -- the note is gone. The replicas of before are an int32 of -1 or more that the resource can hold.
  pub scale_up-scale_down :
      (w w1 : R) (c n : ℤ) (s : ScalingSummary)
      → IsInt32 n
      → IsStorable (absolute c)
      → CanHold w c
      → get_replicas w ≡ ok (absolute c)
      → scale_down ops (absolute n) w ≡ ok (w1, s)
      → s.is_update_needed ≡ true
      → IsRestored w w1 c
  scale_up-scale_down w w1 c n s i st h g d u =
      let (w', e, p) = scale_down_updates ops CanHold owns laws w w1 c n s g d u in
      subst (λ x. IsRestored w x c) (sym p) (IsRestored-of_noted w w' c n i st h e)
