-- ===== src/Scalable/Resources/Ingresses.antt =====
-- internal/pkg/scalable/ingresses.go
use go_kube_downscaler.Prelude.{◌≡◌, refl, sym, ap, ◌∙◌, Option, none, some}
use go_kube_downscaler.Fault.{Result, ok, err, ok-injective, ingress_class_name_nil}
use go_kube_downscaler.Text.{Text, codes}
use go_kube_downscaler.Dict.{Dict}
use go_kube_downscaler.Replicas.{Replicas, string, to_text}
use go_kube_downscaler.Metrics.{SavedResources, no_saved_resources}
use go_kube_downscaler.Scalable.{ScalableResource}
use go_kube_downscaler.Scalable.ValueScaled.{ValueScaledResource}
use go_kube_downscaler.Scalable.ValueScaled.RoundTrip.{ValueLaws}

abbrev pub downscaler_ingress_class : Text
downscaler_ingress_class = codes "kube-downscaler-ingress-class"

pub record Ingress : Type 0 where
  pub annotations : Dict Text
  pub ingress_class_name : Option Text

abbrev pub base : ScalableResource Ingress
base = record {
  get_annotations = λ i. i.annotations;
  set_annotations = λ a i. record i { annotations = a };
}

unfoldable pub set_value : Replicas → Ingress → Result Ingress
set_value target_replicas i = ok (record i { ingress_class_name = some (to_text target_replicas) })

unfoldable pub class_values : Option Text → Result (Replicas × Replicas)
class_values none = err ingress_class_name_nil
class_values (some name) = ok (string name, string downscaler_ingress_class)

unfoldable pub get_value : Ingress → Result (Replicas × Replicas)
unfolding class_values
get_value i = class_values i.ingress_class_name

abbrev pub get_saved_resources_requests : Ingress → SavedResources
get_saved_resources_requests i = no_saved_resources

abbrev pub ingress : ValueScaledResource Ingress
ingress = record {
  base = base;
  set_value = set_value;
  get_value = get_value;
  get_saved_resources_requests = get_saved_resources_requests;
}

-- A class name, which is a text.
abbrev pub IsClassName : Replicas → Type 0
IsClassName v = (t : Text) × (v ≡ string t)

pub ingress_laws : ValueLaws ingress (string downscaler_ingress_class) IsClassName
unfolding get_value set_value class_values to_text
ingress_laws = record {
  annotations = record { get_set = λ a w. refl };
  get_set = λ v w h.
      let (t, e) = h in
      (
        record w { ingress_class_name = some (to_text v) },
        refl,
        ap (λ r. ok (string (to_text r), string downscaler_ingress_class)) e
            ∙ ap (λ r. ok (r, string downscaler_ingress_class)) (sym e),
      );
  get_ok = λ v w w' e. (string (to_text v), ap get_value (sym (ok-injective e)));
  get_frame = λ a w. refl;
  set_frame = λ v w w' e. ap (λ (i : Ingress). i.annotations) (sym (ok-injective e));
}
