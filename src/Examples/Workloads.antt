-- ===== src/Examples/Workloads.antt =====
-- The theorems on the ways to scale a workload, at workloads of the kinds that use them.
use go_kube_downscaler.Prelude.{◌≡◌, refl, true, [], ◌∷◌, some, pos, arith, ◌-ℤ◌, ◌+ℤ◌, ◌*ℤ◌}
use go_kube_downscaler.Fault.{ok}
use go_kube_downscaler.Text.{codes}
use go_kube_downscaler.Text.Decimal.{itoa}
use go_kube_downscaler.Dict.{insert}
use go_kube_downscaler.Replicas.{absolute, to_text, as_int32}
use go_kube_downscaler.Replicas.RoundTrip.{IsStorable}
use go_kube_downscaler.Scalable.{
  annotation_original_replicas, ScalingSummary, no_summary, set_original_replicas,
}
use go_kube_downscaler.Scalable.ReplicaScaled as Counted
use go_kube_downscaler.Scalable.ReplicaScaled.RoundTrip as CountedTrip
use go_kube_downscaler.Scalable.Resources.Deployments as Deployments
use go_kube_downscaler.Scalable.Resources.Deployments.{
  Deployment, deployment, deployment_laws, AnyCount, owns_nothing,
}

-- Three replicas, each with one container.
abbrev pub shop : Deployment
shop = record {
  annotations = [];
  replicas = some (pos 3);
  containers =
      record { requests = some (record { total_saved_cpu = pos 2; total_saved_memory = pos 100 }) }
      ∷ [];
}

abbrev pub closed_shop : Deployment
closed_shop = record shop {
  annotations = (annotation_original_replicas, codes "3") ∷ [];
  replicas = some (pos 0);
}

abbrev pub shop_closed : ScalingSummary
shop_closed = record no_summary {
  saved_resources = some (record { total_saved_cpu = pos 6; total_saved_memory = pos 300 });
  is_update_needed = true;
  from = some (absolute (pos 3));
  to = some (absolute (pos 0));
}

pub shop_closes :
    Counted.scale_down deployment (absolute (pos 0)) shop ≡ ok (closed_shop, shop_closed)
unfolding Counted.scale_down Counted.stay_or_lower Counted.lower_to Deployments.set_replicas
    Deployments.get_replicas Deployments.get_saved_resources_requests as_int32 set_original_replicas
    insert to_text itoa ◌-ℤ◌ ◌+ℤ◌ ◌*ℤ◌
shop_closes = refl

pub shop_count : Deployments.get_replicas shop ≡ ok (absolute (pos 3))
unfolding Deployments.get_replicas
shop_count = refl

pub three-IsStorable : IsStorable (absolute (pos 3))
three-IsStorable = (omega arith, omega arith)

scale_up-scale_down_example :
    CountedTrip.IsRestored deployment AnyCount owns_nothing deployment_laws shop closed_shop (pos 3)
scale_up-scale_down_example =
    CountedTrip.scale_up-scale_down deployment AnyCount owns_nothing deployment_laws shop
      closed_shop (pos 3) (pos 0) shop_closed (omega arith, omega arith) three-IsStorable tt
      shop_count shop_closes refl
