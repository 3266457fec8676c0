-- ===== src/Scalable/ReplicaScaled/Lowering.antt =====
-- What `ScaleDown` of a resource with a count has done where it asks for an update, and that the
-- annotation of the original replicas does not change the count.
use go_kube_downscaler.Prelude.{
  ◌≡◌, ◌∙◌, refl, sym, ap, Bool, true, false, str_eq_iff, String, Option, none, some, ℤ, str_eq,
  inl, inr, Bool-cases,
}
use go_kube_downscaler.Fault.{Result, ok, err, ◌>>=◌, >>=-eq-ok, ok-injective}
use go_kube_downscaler.Dict.{lookup-insert, lookup-delete}
use go_kube_downscaler.Replicas.{Replicas, absolute, as_int32, to_text}
use go_kube_downscaler.Scalable.{
  annotation_original_replicas, ScalingSummary, set_original_replicas, get_original_replicas,
  remove_original_replicas,
}
use go_kube_downscaler.Scalable.ReplicaScaled.Laws.{ReplicaLaws}
use go_kube_downscaler.Scalable.ReplicaScaled.{
  ReplicaScaledResource, stay, lower_to, is_at_target, stay_or_lower, scale_down, int32_of,
}

module _ {R : Type 0} (ops : ReplicaScaledResource R) (CanHold : R → ℤ → Type 0)
    (owns : String → Bool) (laws : ReplicaLaws ops CanHold owns) where
  open ops use {base, set_replicas, get_replicas}

  stay_updates_not :
      (w : R) (current target : Replicas) (n : ℤ) (o : Option ℤ)
      → (stay ops w current target n o).1.is_update_needed ≡ false
  unfolding stay
  stay_updates_not w current target n none = refl
  stay_updates_not w current target n (some original) = refl

  not_stayed :
      (w w1 : R) (current target : Replicas) (n : ℤ) (o : Result (Option ℤ)) (s : ScalingSummary)
      → (o >>= (λ original. ok (stay ops w current target n original))) ≡ ok (w1, s)
      → s.is_update_needed ≡ false
  not_stayed w w1 current target n (ok original) s h =
      sym (ap (λ (p : R × ScalingSummary). p.1.is_update_needed) (ok-injective h))
      ∙ stay_updates_not w current target n original
  not_stayed w w1 current target n (err e) s h = cc

  lowered :
      (w w1 : R) (current target : Replicas) (c n : ℤ) (s : ScalingSummary)
      → lower_to ops w current target c n ≡ ok (w1, s)
      → (w' : R) × (set_replicas n w ≡ ok w') × (w1 ≡ set_original_replicas base current w')
  unfolding lower_to
  lowered w w1 current target c n s h =
      let (w', e, p) = >>=-eq-ok (set_replicas n w) _ h in
      (w', e, sym (ap (λ (q : R × ScalingSummary). q.0) (ok-injective p)))

  pub scale_down-at :
      (w : R) (target : Replicas) (c : ℤ) (t : Result ℤ)
      → get_replicas w ≡ ok (absolute c)
      → (do
        n ← t
        current ← get_replicas w
        current_n ← as_int32 current
        stay_or_lower ops w target n current current_n)
        ≡ (t >>= λ n. stay_or_lower ops w target n (absolute c) c)
  unfolding as_int32
  scale_down-at w target c (ok n) g = rw g refl
  scale_down-at w target c (err e) g = refl

  abbrev pub Lowered : R → R → ℤ → ℤ → Type 0
  Lowered w w1 c n =
      (w' : R) × (set_replicas n w ≡ ok w') × (w1 ≡ set_original_replicas base (absolute c) w')

  Lowered-of_stay_or_lower :
      (w w1 : R) (target : Replicas) (c n : ℤ) (s : ScalingSummary)
      → stay_or_lower ops w target n (absolute c) c ≡ ok (w1, s)
      → s.is_update_needed ≡ true
      → Lowered w w1 c n
  unfolding stay_or_lower
  Lowered-of_stay_or_lower w w1 target c n s h u = elim (Bool-cases (is_at_target ops c n)) [
    | inl at ↦ cc (
        not_stayed w w1 (absolute c) target n (int32_of (get_original_replicas base w)) s
          (rw at at h))
    | inr above ↦ lowered w w1 (absolute c) target c n s (rw above at h)
  ]

  -- A `ScaleDown` that asks for an update has set the replicas and noted the old ones.
  pub scale_down_updates :
      (w w1 : R) (c n : ℤ) (s : ScalingSummary)
      → get_replicas w ≡ ok (absolute c)
      → scale_down ops (absolute n) w ≡ ok (w1, s)
      → s.is_update_needed ≡ true
      → Lowered w w1 c n
  unfolding scale_down as_int32
  scale_down_updates w w1 c n s g h u =
      Lowered-of_stay_or_lower w w1 (absolute n) c n s
        (sym (scale_down-at w (absolute n) c (ok n) g) ∙ h) u

  own_ne_original : (k : String) → owns k ≡ true → str_eq annotation_original_replicas k ≡ false
  own_ne_original k o = elim (Bool-cases (str_eq annotation_original_replicas k)) [
    | inl e ↦ cc (ap owns ((str_eq_iff annotation_original_replicas k).0 e), laws.not_original)
    | inr e ↦ e
  ]

  pub get-set_original :
      (r : Replicas) (w : R) → get_replicas (set_original_replicas base r w) ≡ get_replicas w
  unfolding set_original_replicas
  get-set_original r w = laws.get_frame _ w (λ k o.
      lookup-insert annotation_original_replicas k (to_text r) (base.get_annotations w)
      ∙ rw (own_ne_original k o) refl)

  pub get-remove : (w : R) → get_replicas (remove_original_replicas base w) ≡ get_replicas w
  unfolding remove_original_replicas
  get-remove w = laws.get_frame _ w (λ k o.
      lookup-delete annotation_original_replicas k (base.get_annotations w)
      ∙ rw (own_ne_original k o) refl)
