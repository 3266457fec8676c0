-- ===== src/Scalable/Restored.antt =====
-- internal/pkg/scalable: what a scaling up leaves after a scaling down, for the kinds that keep
-- their state outside the annotations.
use go_kube_downscaler.Prelude.{◌≡◌, true, false, String, none, str_eq}
use go_kube_downscaler.Fault.{Result, ok}
use go_kube_downscaler.Scalable.{annotation_original_replicas, ScalingSummary, ScalableResource}
use go_kube_downscaler.Scalable.Annotations.{AnnotationLaws, annotation}

-- `w1` scales up to a resource with the state and the annotations of `w`, without a note.
pub record IsRestored {R S : Type 0} (resource : ScalableResource R)
    (laws : AnnotationLaws resource) (scale_up : R → Result (R × ScalingSummary)) (state : R → S)
    (w w1 : R) : Type 0 where
  pub result : R
  pub summary : ScalingSummary
  pub scaled_up : scale_up w1 ≡ ok (result, summary)
  pub updated : summary.is_update_needed ≡ true
  pub same_state : state result ≡ state w
  pub no_note : annotation resource laws annotation_original_replicas result ≡ none
  pub others :
      (k : String)
      → str_eq annotation_original_replicas k ≡ false
      → annotation resource laws k result ≡ annotation resource laws k w
