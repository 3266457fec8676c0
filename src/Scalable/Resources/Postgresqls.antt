-- ===== src/Scalable/Resources/Postgresqls.antt =====
-- internal/pkg/scalable/postgresqls.go
--
-- `ParseQuantity` of the package resource is a parameter.
use go_kube_downscaler.Prelude.{refl, ap, sym, Bool, false, String, Option, none, some, ℤ, pos}
use go_kube_downscaler.Fault.{Result, ok, err, ok-injective}
use go_kube_downscaler.Text.{Text}
use go_kube_downscaler.Dict.{Dict, lookup}
use go_kube_downscaler.Replicas.{Replicas, absolute}
use go_kube_downscaler.Metrics.{SavedResources, no_saved_resources}
use go_kube_downscaler.Scalable.{ScalableResource}
use go_kube_downscaler.Scalable.ReplicaScaled.{ReplicaScaledResource}
use go_kube_downscaler.Scalable.ReplicaScaled.Laws.{ReplicaLaws}
use go_kube_downscaler.Scalable.Resources.{times}

pub record ResourceRequests : Type 0 where
  pub cpu : Option Text
  pub memory : Option Text

-- `requests` is `none` where the block `Resources` is nil.
pub record Postgresql : Type 0 where
  pub annotations : Dict Text
  pub number_of_instances : ℤ
  pub requests : Option ResourceRequests

abbrev pub base : ScalableResource Postgresql
base = record {
  get_annotations = λ p. p.annotations;
  set_annotations = λ a p. record p { annotations = a };
}

unfoldable pub set_replicas : ℤ → Postgresql → Result Postgresql
set_replicas n p = ok (record p { number_of_instances = n })

unfoldable pub get_replicas : Postgresql → Result Replicas
get_replicas p = ok (absolute p.number_of_instances)

abbrev pub amount_or_zero : Result ℤ → ℤ
amount_or_zero (err e) = pos 0
amount_or_zero (ok amount) = amount

module _ (parse_quantity : Text → Result ℤ) where
  -- `parseQuantityAsFloat`.
  unfoldable pub parse_quantity_as_float : Option Text → ℤ
  parse_quantity_as_float none = pos 0
  parse_quantity_as_float (some quantity) = amount_or_zero (parse_quantity quantity)

  abbrev pub requested : Option ResourceRequests → SavedResources
  unfolding parse_quantity_as_float
  requested none = no_saved_resources
  requested (some r) = record {
    total_saved_cpu = parse_quantity_as_float r.cpu;
    total_saved_memory = parse_quantity_as_float r.memory;
  }

  unfoldable pub get_saved_resources_requests : ℤ → Postgresql → SavedResources
  unfolding parse_quantity_as_float
  get_saved_resources_requests diff_replicas p = times diff_replicas (requested p.requests)

  abbrev pub postgresql : ReplicaScaledResource Postgresql
  postgresql = record {
    base = base;
    set_replicas = set_replicas;
    get_replicas = get_replicas;
    get_saved_resources_requests = get_saved_resources_requests;
  }

  abbrev pub owns_nothing : String → Bool
  owns_nothing k = false

  abbrev pub AnyCount : Postgresql → ℤ → Type 0
  AnyCount p n = Unit

  -- A database keeps what is asked of a resource with a count, for every count.
  pub postgresql_laws : ReplicaLaws postgresql AnyCount owns_nothing
  unfolding set_replicas get_replicas
  postgresql_laws = record {
    annotations = record { get_set = λ a w. refl };
    not_original = refl;
    get_frame = λ a w h. refl;
    get_set = λ n w h. (record w { number_of_instances = n }, refl, refl);
    get_ok = λ n w w' i e. (absolute n, ap get_replicas (sym (ok-injective e)));
    set_frame =
        λ n w w' k e o. ap (λ (p : Postgresql). lookup k p.annotations) (sym (ok-injective e));
    hold_set = λ n c w w' e h. h;
    hold_annotations = λ a w c h. h;
  }
