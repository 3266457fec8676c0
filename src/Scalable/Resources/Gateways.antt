-- ===== src/Scalable/Resources/Gateways.antt =====
-- internal/pkg/scalable/gateways.go
use go_kube_downscaler.Prelude.{◌≡◌, refl, sym, ap, ◌∙◌}
use go_kube_downscaler.Fault.{Result, ok, ok-injective}
use go_kube_downscaler.Text.{Text, codes}
use go_kube_downscaler.Dict.{Dict}
use go_kube_downscaler.Replicas.{Replicas, string, to_text}
use go_kube_downscaler.Metrics.{SavedResources, no_saved_resources}
use go_kube_downscaler.Scalable.{ScalableResource}
use go_kube_downscaler.Scalable.ValueScaled.{ValueScaledResource}
use go_kube_downscaler.Scalable.ValueScaled.RoundTrip.{ValueLaws}

abbrev pub downscaler_gateway_class : Text
downscaler_gateway_class = codes "kube-downscaler-gateway-class"

-- The class name is a value, which no gateway is without.
pub record Gateway : Type 0 where
  pub annotations : Dict Text
  pub gateway_class_name : Text

abbrev pub base : ScalableResource Gateway
base = record {
  get_annotations = λ g. g.annotations;
  set_annotations = λ a g. record g { annotations = a };
}

unfoldable pub set_value : Replicas → Gateway → Result Gateway
set_value target_replicas g = ok (record g { gateway_class_name = to_text target_replicas })

unfoldable pub get_value : Gateway → Result (Replicas × Replicas)
get_value g = ok (string g.gateway_class_name, string downscaler_gateway_class)

abbrev pub get_saved_resources_requests : Gateway → SavedResources
get_saved_resources_requests g = no_saved_resources

abbrev pub gateway : ValueScaledResource Gateway
gateway = record {
  base = base;
  set_value = set_value;
  get_value = get_value;
  get_saved_resources_requests = get_saved_resources_requests;
}

-- A class name, which is a text.
abbrev pub IsClassName : Replicas → Type 0
IsClassName v = (t : Text) × (v ≡ string t)

pub gateway_laws : ValueLaws gateway (string downscaler_gateway_class) IsClassName
unfolding get_value set_value to_text
gateway_laws = record {
  annotations = record { get_set = λ a w. refl };
  get_set = λ v w h.
      let (t, e) = h in
      (
        record w { gateway_class_name = to_text v },
        refl,
        ap (λ r. ok (string (to_text r), string downscaler_gateway_class)) e
            ∙ ap (λ r. ok (r, string downscaler_gateway_class)) (sym e),
      );
  get_ok = λ v w w' e. (string (to_text v), ap get_value (sym (ok-injective e)));
  get_frame = λ a w. refl;
  set_frame = λ v w w' e. ap (λ (g : Gateway). g.annotations) (sym (ok-injective e));
}
