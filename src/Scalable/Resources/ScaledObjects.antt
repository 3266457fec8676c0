-- ===== src/Scalable/Resources/ScaledObjects.antt =====
-- internal/pkg/scalable/scaledobjects.go: the count is an annotation that KEDA reads.
use go_kube_downscaler.Prelude.{
  ◌≡◌, refl, ap, sym, ◌∙◌, Bool, false, String, Option, none, some, ℤ, eqb_ℤ, arith, if◌then◌else◌,
  str_eq, IsInt32, inl, inr, Bool-cases, eqb_ℤ→eq,
}
use go_kube_downscaler.Fault.{Result, ok, ok-injective, ◌>>=◌}
use go_kube_downscaler.Text.{Text}
use go_kube_downscaler.Text.Decimal.{itoa, parse_int}
use go_kube_downscaler.Text.Decimal.RoundTrip.{parse_int-itoa}
use go_kube_downscaler.Dict.{Dict, lookup, insert, delete, lookup-insert, lookup-delete}
use go_kube_downscaler.Replicas.{Replicas, absolute, undefined}
use go_kube_downscaler.Metrics.{SavedResources, no_saved_resources}
use go_kube_downscaler.Scalable.{ScalableResource}
use go_kube_downscaler.Scalable.ReplicaScaled.{ReplicaScaledResource}
use go_kube_downscaler.Scalable.ReplicaScaled.Laws.{ReplicaLaws}

abbrev pub annotation_keda_paused_replicas : String
annotation_keda_paused_replicas = "autoscaling.keda.sh/paused-replicas"

pub record ScaledObject : Type 0 where
  pub annotations : Dict Text

abbrev pub base : ScalableResource ScaledObject
base = record {
  get_annotations = λ s. s.annotations;
  set_annotations = λ a s. record s { annotations = a };
}

unfoldable pub set_replicas : ℤ → ScaledObject → Result ScaledObject
set_replicas n s =
    if eqb_ℤ n undefined
    then ok (record s { annotations = delete annotation_keda_paused_replicas s.annotations })
    else ok
        (record s { annotations = insert annotation_keda_paused_replicas (itoa n) s.annotations })

unfoldable pub read_paused : Option Text → Result Replicas
read_paused none = ok (absolute undefined)
read_paused (some text) = do n ← parse_int 32 text; ok (absolute n)

unfoldable pub get_replicas : ScaledObject → Result Replicas
unfolding read_paused
get_replicas s = read_paused (lookup annotation_keda_paused_replicas s.annotations)

abbrev pub get_saved_resources_requests : ℤ → ScaledObject → SavedResources
get_saved_resources_requests diff_replicas s = no_saved_resources

abbrev pub scaled_object : ReplicaScaledResource ScaledObject
scaled_object = record {
  base = base;
  set_replicas = set_replicas;
  get_replicas = get_replicas;
  get_saved_resources_requests = get_saved_resources_requests;
}

abbrev pub owns_paused : String → Bool
owns_paused k = str_eq annotation_keda_paused_replicas k

abbrev pub AnyInt32 : ScaledObject → ℤ → Type 0
AnyInt32 s n = IsInt32 n

-- The count that was set is read.
get_replicas_of_set :
    (n : ℤ) (s s' : ScaledObject)
    → IsInt32 n
    → set_replicas n s ≡ ok s'
    → get_replicas s' ≡ ok (absolute n)
unfolding set_replicas get_replicas read_paused
get_replicas_of_set n s s' i e = elim (Bool-cases (eqb_ℤ n undefined)) [
  | inl u ↦
      ap get_replicas (sym (ok-injective (rw u at e)))
      ∙ ap read_paused (
          lookup-delete annotation_keda_paused_replicas annotation_keda_paused_replicas
            s.annotations)
      ∙ ap (λ m. ok (absolute m)) (sym (eqb_ℤ→eq n undefined u))
  | inr d ↦
      ap get_replicas (sym (ok-injective (rw d at e)))
      ∙ ap read_paused (
          lookup-insert annotation_keda_paused_replicas annotation_keda_paused_replicas (itoa n)
            s.annotations)
      ∙ ap (λ r. r >>= λ m. ok (absolute m)) (parse_int-itoa 32 n (omega arith) i)
]

set_replicas-total : (n : ℤ) (s : ScaledObject) → (s' : ScaledObject) × (set_replicas n s ≡ ok s')
unfolding set_replicas
set_replicas-total n s = elim (Bool-cases (eqb_ℤ n undefined)) [
  | inl u ↦
      (record s { annotations = delete annotation_keda_paused_replicas s.annotations }, rw u refl)
  | inr d ↦ (
    record s { annotations = insert annotation_keda_paused_replicas (itoa n) s.annotations },
    rw d refl,
  )
]

others_kept :
    (n : ℤ) (s s' : ScaledObject) (k : String)
    → set_replicas n s ≡ ok s'
    → owns_paused k ≡ false
    → lookup k s'.annotations ≡ lookup k s.annotations
unfolding set_replicas
others_kept n s s' k e o = elim (Bool-cases (eqb_ℤ n undefined)) [
  | inl u ↦
      ap (λ (x : ScaledObject). lookup k x.annotations) (sym (ok-injective (rw u at e)))
      ∙ lookup-delete annotation_keda_paused_replicas k s.annotations
      ∙ rw o refl
  | inr d ↦
      ap (λ (x : ScaledObject). lookup k x.annotations) (sym (ok-injective (rw d at e)))
      ∙ lookup-insert annotation_keda_paused_replicas k (itoa n) s.annotations
      ∙ rw o refl
]

-- A scaled object keeps what is asked of a resource with a count: every int32 that is set is read
-- back (-1 by the absence of the annotation), and no other annotation is touched.
pub scaled_object_laws : ReplicaLaws scaled_object AnyInt32 owns_paused
unfolding get_replicas
scaled_object_laws = record {
  annotations = record { get_set = λ a w. refl };
  not_original = refl;
  get_frame = λ a w h. ap read_paused (h annotation_keda_paused_replicas refl);
  get_set =
      λ n w i. let (w', e) = set_replicas-total n w in (w', e, get_replicas_of_set n w w' i e);
  get_ok = λ n w w' i e. (absolute n, get_replicas_of_set n w w' i e);
  set_frame = others_kept;
  hold_set = λ n c w w' e h. h;
  hold_annotations = λ a w c h. h;
}
