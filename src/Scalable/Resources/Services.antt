-- ===== src/Scalable/Resources/Services.antt =====
-- internal/pkg/scalable/services.go
use go_kube_downscaler.Prelude.{
  ◌≡◌, inl, inr, refl, sym, ap, ◌∙◌, Bool, true, ◌&&◌, not, if◌then◌else◌, Bool-cases,
}
use go_kube_downscaler.Fault.{Result, ok, err, ok-injective, unexpected_original_replicas}
use go_kube_downscaler.Text.{Text, codes, text_eq}
use go_kube_downscaler.Dict.{Dict}
use go_kube_downscaler.Replicas.{Replicas, string, to_text}
use go_kube_downscaler.Metrics.{SavedResources, no_saved_resources}
use go_kube_downscaler.Scalable.{ScalableResource}
use go_kube_downscaler.Scalable.ValueScaled.{ValueScaledResource}
use go_kube_downscaler.Scalable.ValueScaled.RoundTrip.{ValueLaws}

abbrev pub service_type_load_balancer : Text
service_type_load_balancer = codes "LoadBalancer"

abbrev pub service_type_cluster_ip : Text
service_type_cluster_ip = codes "ClusterIP"

pub record Service : Type 0 where
  pub annotations : Dict Text
  pub service_type : Text

abbrev pub base : ScalableResource Service
base = record {
  get_annotations = λ s. s.annotations;
  set_annotations = λ a s. record s { annotations = a };
}

abbrev pub is_allowed : Text → Bool
is_allowed t =
    not (not (text_eq t service_type_load_balancer) && not (text_eq t service_type_cluster_ip))

unfoldable pub set_value : Replicas → Service → Result Service
set_value value s =
    if is_allowed (to_text value)
    then ok (record s { service_type = to_text value })
    else err (unexpected_original_replicas (to_text value))

unfoldable pub get_value : Service → Result (Replicas × Replicas)
get_value s = ok (string s.service_type, string service_type_cluster_ip)

abbrev pub get_saved_resources_requests : Service → SavedResources
get_saved_resources_requests s = no_saved_resources

abbrev pub service : ValueScaledResource Service
service = record {
  base = base;
  set_value = set_value;
  get_value = get_value;
  get_saved_resources_requests = get_saved_resources_requests;
}

-- The two service types that can be set.
abbrev pub IsRestorableType : Replicas → Type 0
IsRestorableType v = (t : Text) × (v ≡ string t) × (is_allowed t ≡ true)

set_value-eq :
    (v : Replicas) (w w' : Service)
    → set_value v w ≡ ok w'
    → w' ≡ record w { service_type = to_text v }
unfolding set_value
set_value-eq v w w' e = elim (Bool-cases (is_allowed (to_text v))) [
  | inl y ↦ sym (ok-injective (rw y at e))
  | inr n ↦ cc (rw n at e)
]

set_value-string :
    (t : Text) (w : Service)
    → is_allowed t ≡ true
    → set_value (string t) w ≡ ok (record w { service_type = t })
unfolding set_value to_text
set_value-string t w h = rw h refl

pub service_laws : ValueLaws service (string service_type_cluster_ip) IsRestorableType
unfolding get_value
service_laws = record {
  annotations = record { get_set = λ a w. refl };
  get_set = λ v w h.
      let (t, e, a) = h in
      (
        record w { service_type = t },
        ap (λ r. set_value r w) e ∙ set_value-string t w a,
        ap (λ r. ok (r, string service_type_cluster_ip)) (sym e),
      );
  get_ok = λ v w w' e. (string w'.service_type, refl);
  get_frame = λ a w. refl;
  set_frame = λ v w w' e. ap (λ (s : Service). s.annotations) (set_value-eq v w w' e);
}
