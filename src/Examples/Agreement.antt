-- ===== src/Examples/Agreement.antt =====
-- The theorem on the agreement of the webhook and the main loop, at a deployment.
use go_kube_downscaler.Prelude.{◌≡◌, refl, ap, pos, false, none, some}
use go_kube_downscaler.Fault.{ok, ok-injective}
use go_kube_downscaler.Text.{codes}
use go_kube_downscaler.Dict.{lookup}
use go_kube_downscaler.Replicas.{absolute}
use go_kube_downscaler.Scalable.Resources.Deployments.{Deployment}
use go_kube_downscaler.Values.{Scope, scope_none, new_scope}
use go_kube_downscaler.Values.ScopeScaling.{check_for_incompatible_fields}
use go_kube_downscaler.Values.Query.{get_downscale_replicas, is_in_grace_period}
use go_kube_downscaler.Values.ScopeParser.{get_scope_from_annotations}
use go_kube_downscaler.Admission.Mutation.Agreement.{AreAlike, scan_workload-mutation}
use go_kube_downscaler.Downscaler.Scan.{scan_workload, grace_of}
use go_kube_downscaler.Examples.{utc_only, always, empty_scope, resting}
use go_kube_downscaler.Examples.Looping.{config, kind, contested, shared, session}
use go_kube_downscaler.Examples.Webhook.{ops, lookups, deployments_only, uid, patch_of_shop}
use go_kube_downscaler.Examples.Workloads.{shop, closed_shop, shop_closed, shop_closes}

alike : AreAlike ops lookups kind contested config utc_only (pos 0) deployments_only shared shop
unfolding lookup
alike = record {
  annotations = refl;
  lowering = λ replicas. refl;
  copying = refl;
  default = refl;
  cli = refl;
  environment = refl;
  known = λ namespace e. ap (λ n. some n) (ok-injective e);
}

abbrev down_namespace : Scope
down_namespace = record empty_scope { down_time = always }

shop_scope : get_scope_from_annotations utc_only shop.annotations new_scope ≡ ok empty_scope
unfolding get_scope_from_annotations lookup check_for_incompatible_fields new_scope
shop_scope = refl

target_of_resting : get_downscale_replicas resting ≡ ok (absolute (pos 0))
unfolding get_downscale_replicas
target_of_resting = refl

out_of_grace_period :
    grace_of kind contested config utc_only (pos 0) resting shop
    ≡ ok (record { matched = false; scope = scope_none })
unfolding grace_of is_in_grace_period
out_of_grace_period = refl

scan_workload-mutation_example :
    ((difference : Deployment) × (ops.compare shop closed_shop ≡ ok difference)
      × (ops.marshal difference ≡ ok (codes "patch")))
    × ((scan_workload kind contested config utc_only (pos 0) shared (session (0, 0))).0.workload
        ≡ closed_shop)
scan_workload-mutation_example =
    scan_workload-mutation ops lookups kind contested config utc_only (pos 0) deployments_only
      shared uid shop (codes "patch") none empty_scope down_namespace
      (record { matched = false; scope = scope_none }) (absolute (pos 0)) closed_shop shop_closed 2
      (session (0, 0)) alike patch_of_shop shop_scope refl target_of_resting shop_closes refl
      out_of_grace_period refl refl refl refl refl
