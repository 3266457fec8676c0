-- ===== src/Scalable/Annotations.antt =====
-- The annotation with the original replicas is read back as it was written.
use go_kube_downscaler.Prelude.{◌≡◌, ◌∙◌, refl, ap, false, String, Option, none, some, str_eq}
use go_kube_downscaler.Fault.{ok}
use go_kube_downscaler.Text.{Text}
use go_kube_downscaler.Dict.{Dict, lookup, lookup-insert, lookup-delete}
use go_kube_downscaler.Replicas.{Replicas, to_text}
use go_kube_downscaler.Replicas.RoundTrip.{IsStorable, set-to_text}
use go_kube_downscaler.Scalable.{
  annotation_original_replicas, ScalableResource, read_original, set_original_replicas,
  get_original_replicas, remove_original_replicas,
}

-- What every Kubernetes object satisfies: its annotations are a field.
pub record AnnotationLaws {R : Type 0} (resource : ScalableResource R) : Type 0 where
  pub get_set :
      (a : Dict Text) (w : R) → resource.get_annotations (resource.set_annotations a w) ≡ a

module _ {R : Type 0} (resource : ScalableResource R) (laws : AnnotationLaws resource) where
  open resource use {get_annotations, set_annotations}

  -- The annotation under a key.
  abbrev pub annotation : String → R → Option Text
  annotation k w = lookup k (get_annotations w)

  pub annotation-set_original :
      (k : String) (r : Replicas) (w : R)
      → str_eq annotation_original_replicas k ≡ false
      → annotation k (set_original_replicas resource r w) ≡ annotation k w
  unfolding set_original_replicas
  annotation-set_original k r w n =
      ap (lookup k) (laws.get_set _ w)
      ∙ lookup-insert annotation_original_replicas k (to_text r) (get_annotations w)
      ∙ rw n refl

  pub annotation-remove :
      (k : String) (w : R)
      → str_eq annotation_original_replicas k ≡ false
      → annotation k (remove_original_replicas resource w) ≡ annotation k w
  unfolding remove_original_replicas
  annotation-remove k w n =
      ap (lookup k) (laws.get_set _ w)
      ∙ lookup-delete annotation_original_replicas k (get_annotations w)
      ∙ rw n refl

  pub original-removed :
      (w : R) → annotation annotation_original_replicas (remove_original_replicas resource w) ≡ none
  unfolding remove_original_replicas
  original-removed w =
      ap (lookup annotation_original_replicas) (laws.get_set _ w)
      ∙ lookup-delete annotation_original_replicas annotation_original_replicas (get_annotations w)

  pub original-written :
      (r : Replicas) (w : R)
      → annotation annotation_original_replicas (set_original_replicas resource r w)
        ≡ some (to_text r)
  unfolding set_original_replicas
  original-written r w =
      ap (lookup annotation_original_replicas) (laws.get_set _ w)
      ∙ lookup-insert annotation_original_replicas annotation_original_replicas (to_text r)
          (get_annotations w)

  -- What `setOriginalReplicas` wrote is what `getOriginalReplicas` reads, for storable replicas.
  pub get_original-set_original :
      (r : Replicas) (w : R)
      → IsStorable r
      → get_original_replicas resource (set_original_replicas resource r w) ≡ ok r
  unfolding get_original_replicas
  get_original-set_original r w h =
      ap read_original (original-written r w) ∙ (unfold read_original in set-to_text r h)
