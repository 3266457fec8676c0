-- ===== src/Scalable/ReplicaScaled/Laws.antt =====
-- What a resource that is scaled by a replica count promises, as its client relies on it.
use go_kube_downscaler.Prelude.{◌≡◌, Bool, true, false, String, ℤ, IsInt32}
use go_kube_downscaler.Fault.{ok}
use go_kube_downscaler.Text.{Text}
use go_kube_downscaler.Dict.{Dict, lookup}
use go_kube_downscaler.Replicas.{Replicas, absolute}
use go_kube_downscaler.Scalable.{annotation_original_replicas}
use go_kube_downscaler.Scalable.Annotations.{AnnotationLaws}
use go_kube_downscaler.Scalable.ReplicaScaled.{ReplicaScaledResource}

-- `CanHold w n`: the count of `w` can be set to `n`. `owns k`: the count is kept in annotation `k`.
pub record ReplicaLaws {R : Type 0} (ops : ReplicaScaledResource R) (CanHold : R → ℤ → Type 0)
    (owns : String → Bool) : Type 0 where
  pub annotations : AnnotationLaws ops.base
  pub not_original : owns annotation_original_replicas ≡ false
  -- The count depends on the annotations that it owns only.
  pub get_frame :
      (a : Dict Text) (w : R)
      → ((k : String) → owns k ≡ true → lookup k a ≡ lookup k (ops.base.get_annotations w))
      → ops.get_replicas (ops.base.set_annotations a w) ≡ ops.get_replicas w
  pub get_set :
      (n : ℤ) (w : R)
      → CanHold w n
      → (w' : R) × (ops.set_replicas n w ≡ ok w') × (ops.get_replicas w' ≡ ok (absolute n))
  pub get_ok :
      (n : ℤ) (w w' : R)
      → IsInt32 n
      → ops.set_replicas n w ≡ ok w'
      → (r : Replicas) × (ops.get_replicas w' ≡ ok r)
  pub set_frame :
      (n : ℤ) (w w' : R) (k : String)
      → ops.set_replicas n w ≡ ok w'
      → owns k ≡ false
      → lookup k (ops.base.get_annotations w') ≡ lookup k (ops.base.get_annotations w)
  pub hold_set : (n c : ℤ) (w w' : R) → ops.set_replicas n w ≡ ok w' → CanHold w c → CanHold w' c
  pub hold_annotations :
      (a : Dict Text) (w : R) (c : ℤ) → CanHold w c → CanHold (ops.base.set_annotations a w) c
