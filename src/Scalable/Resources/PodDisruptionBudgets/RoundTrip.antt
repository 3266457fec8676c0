-- ===== src/Scalable/Resources/PodDisruptionBudgets/RoundTrip.antt =====
-- Lowering the limit of a budget and raising it again.
use mathlib.Core.Path.{subst}
use go_kube_downscaler.Prelude.{
  ◌≡◌, refl, sym, ap, ◌∙◌, true, false, Option, none, some, String, str_eq, Bool-cases, inl, inr,
  Option-cases,
}
use go_kube_downscaler.Fault.{ok, ok-injective}
use go_kube_downscaler.Text.{text_eq}
use go_kube_downscaler.Dict.{lookup}
use go_kube_downscaler.Replicas.{
  Replicas, IntOrString, to_text, as_int_str, new_replicas_from_int_or_str,
}
use go_kube_downscaler.Scalable.{
  annotation_original_replicas, ScalingSummary, set_original_replicas, get_original_replicas,
  remove_original_replicas,
}
use go_kube_downscaler.Scalable.Annotations.{
  AnnotationLaws, annotation-set_original, annotation-remove, original-removed,
  get_original-set_original,
}
use go_kube_downscaler.Scalable.Restored.{IsRestored}
use go_kube_downscaler.Scalable.Resources.PodDisruptionBudgets.{
  PodDisruptionBudget, base, scale_up, scale_down, raise, raise_or_skip, lower, get_max_unavailable,
  get_min_available, set_max_unavailable, set_min_available, transition, max_unavailable_attribute,
  min_available_attribute,
}
use go_kube_downscaler.Scalable.Resources.PodDisruptionBudgets.Limits.{
  IsLimit, IsLimit-IsStorable, limit_again, limit_is_some,
}

-- The two limits of a budget, as they are set.
abbrev pub limits : PodDisruptionBudget → Option IntOrString × Option IntOrString
limits p = (p.max_unavailable, p.min_available)

abbrev pub budget_laws : AnnotationLaws base
budget_laws = record { get_set = λ a w. refl }

lowered_max :
    (p p1 : PodDisruptionBudget) (r target : Replicas) (s : ScalingSummary)
    → IsLimit r
    → p.max_unavailable ≡ some (as_int_str r)
    → scale_down target p ≡ ok (p1, s)
    → s.is_update_needed ≡ true
    → p1 ≡ set_original_replicas base r (set_max_unavailable target p)
unfolding scale_down lower get_max_unavailable
lowered_max p p1 r target s l m h u =
    let g : get_max_unavailable p ≡ some r = ap new_replicas_from_int_or_str m ∙ limit_again r l in
    elim (Bool-cases (text_eq (to_text r) (to_text target))) [
      | inl e ↦ cc (
          ap (λ (x : PodDisruptionBudget × ScalingSummary). x.1.is_update_needed)
            (ok-injective (rw (g, e) at h)))
      | inr d ↦
          sym
            (ap (λ (x : PodDisruptionBudget × ScalingSummary). x.0) (ok-injective (rw (g, d) at h)))
    ]

lowered_min :
    (p p1 : PodDisruptionBudget) (r target : Replicas) (s : ScalingSummary)
    → IsLimit r
    → p.max_unavailable ≡ none
    → p.min_available ≡ some (as_int_str r)
    → scale_down target p ≡ ok (p1, s)
    → s.is_update_needed ≡ true
    → p1 ≡ set_original_replicas base r (set_min_available target p)
unfolding scale_down lower get_max_unavailable get_min_available new_replicas_from_int_or_str
lowered_min p p1 r target s l m n h u =
    let f : get_max_unavailable p ≡ none = ap new_replicas_from_int_or_str m in
    let g : get_min_available p ≡ some r = ap new_replicas_from_int_or_str n ∙ limit_again r l in
    elim (Bool-cases (text_eq (to_text r) (to_text target))) [
      | inl e ↦ cc (
          ap (λ (x : PodDisruptionBudget × ScalingSummary). x.1.is_update_needed)
            (ok-injective (rw (f, g, e) at h)))
      | inr d ↦ sym (
          ap (λ (x : PodDisruptionBudget × ScalingSummary). x.0) (ok-injective (rw (f, g, d) at h)))
    ]

raised_max :
    (p : PodDisruptionBudget) (i : IntOrString) (r : Replicas)
    → p.max_unavailable ≡ some i
    → get_original_replicas base p ≡ ok r
    → (s : ScalingSummary) × (scale_up p
        ≡ ok (remove_original_replicas base (set_max_unavailable r p), s))
      × (s.is_update_needed ≡ true)
unfolding scale_up raise_or_skip raise get_max_unavailable
raised_max p i r m o =
    let (c, e) = limit_is_some i in
    let g : get_max_unavailable p ≡ some c = ap new_replicas_from_int_or_str m ∙ e in
    (transition true c r max_unavailable_attribute, rw (o, g) refl, refl)

raised_min :
    (p : PodDisruptionBudget) (i : IntOrString) (r : Replicas)
    → p.max_unavailable ≡ none
    → p.min_available ≡ some i
    → get_original_replicas base p ≡ ok r
    → (s : ScalingSummary) × (scale_up p
        ≡ ok (remove_original_replicas base (set_min_available r p), s))
      × (s.is_update_needed ≡ true)
unfolding scale_up raise_or_skip raise get_max_unavailable get_min_available
    new_replicas_from_int_or_str
raised_min p i r m n o =
    let (c, e) = limit_is_some i in
    let f : get_max_unavailable p ≡ none = ap new_replicas_from_int_or_str m in
    let g : get_min_available p ≡ some c = ap new_replicas_from_int_or_str n ∙ e in
    (transition true c r min_available_attribute, rw (o, f, g) refl, refl)

others_kept :
    (p : PodDisruptionBudget) (a b : PodDisruptionBudget) (r : Replicas) (k : String)
    → str_eq annotation_original_replicas k ≡ false
    → a.annotations ≡ p.annotations
    → b.annotations ≡ (set_original_replicas base r a).annotations
    → lookup k (remove_original_replicas base b).annotations ≡ lookup k p.annotations
others_kept p a b r k n e f =
    annotation-remove base budget_laws k b n
    ∙ ap (lookup k) f
    ∙ annotation-set_original base budget_laws k r a n
    ∙ ap (lookup k) e

-- The limit that `ScaleDown` changes.
abbrev pub scaled_limit : PodDisruptionBudget → Option IntOrString
scaled_limit p = elim p.max_unavailable [ none ↦ p.min_available | some i ↦ some i ]

IsRestored-max :
    (p : PodDisruptionBudget) (r target : Replicas)
    → IsLimit r
    → p.max_unavailable ≡ some (as_int_str r)
    → IsRestored base budget_laws scale_up limits p
        (set_original_replicas base r (set_max_unavailable target p))
unfolding set_original_replicas remove_original_replicas set_max_unavailable
IsRestored-max p r target l m =
    let lowered = set_max_unavailable target p in
    let noted = set_original_replicas base r lowered in
    let (s, e, u) =
      raised_max noted (as_int_str target) r refl
        (get_original-set_original base budget_laws r lowered (IsLimit-IsStorable r l)) in
    record {
      result = remove_original_replicas base (set_max_unavailable r noted);
      summary = s;
      scaled_up = e;
      updated = u;
      same_state = ap (λ o. (o, p.min_available)) (sym m);
      no_note = original-removed base budget_laws (set_max_unavailable r noted);
      others = λ k n. others_kept p lowered (set_max_unavailable r noted) r k n refl refl;
    }

IsRestored-min :
    (p : PodDisruptionBudget) (r target : Replicas)
    → IsLimit r
    → p.max_unavailable ≡ none
    → p.min_available ≡ some (as_int_str r)
    → IsRestored base budget_laws scale_up limits p
        (set_original_replicas base r (set_min_available target p))
unfolding set_original_replicas remove_original_replicas set_min_available
IsRestored-min p r target l m n =
    let lowered = set_min_available target p in
    let noted = set_original_replicas base r lowered in
    let (s, e, u) =
      raised_min noted (as_int_str target) r m refl
        (get_original-set_original base budget_laws r lowered (IsLimit-IsStorable r l)) in
    record {
      result = remove_original_replicas base (set_min_available r noted);
      summary = s;
      scaled_up = e;
      updated = u;
      same_state = ap (λ o. (p.max_unavailable, o)) (sym n);
      no_note = original-removed base budget_laws (set_min_available r noted);
      others = λ k d. others_kept p lowered (set_min_available r noted) r k d refl refl;
    }

-- After a `ScaleDown` that asked for an update, a `ScaleUp` succeeds and asks for one, and gives
-- back both limits of before and every annotation but the note, which is gone. The limit of before
-- that is scaled (`maxUnavailable` if it is set, else `minAvailable`) is a count or a percentage
-- that the annotation can store.
pub raise-lower :
    (p p1 : PodDisruptionBudget) (r target : Replicas) (s : ScalingSummary)
    → IsLimit r
    → scaled_limit p ≡ some (as_int_str r)
    → scale_down target p ≡ ok (p1, s)
    → s.is_update_needed ≡ true
    → IsRestored base budget_laws scale_up limits p p1
raise-lower p p1 r target s l h d u = elim (Option-cases p.max_unavailable) [
  | inl m ↦
      let n : p.min_available ≡ some (as_int_str r) = rw m at h in
      subst (IsRestored base budget_laws scale_up limits p)
        (sym (lowered_min p p1 r target s l m n d u)) (IsRestored-min p r target l m n)
  | inr (i, m) ↦
      let n : p.max_unavailable ≡ some (as_int_str r) = m ∙ (rw m at h) in
      subst (IsRestored base budget_laws scale_up limits p)
        (sym (lowered_max p p1 r target s l n d u)) (IsRestored-max p r target l n)
]
