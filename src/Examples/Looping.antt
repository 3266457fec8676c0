-- ===== src/Examples/Looping.antt =====
-- The theorems on the main loop, at a deployment in small clusters.
use go_kube_downscaler.Prelude.{
  ℕ, zero, suc, ◌+◌, ◌≤◌, ◌≡◌, ◌⊎◌, refl, sym, ap, Bool, true, false, [], ◌∷◌, Option, none, some,
  pos, arith, pos_part, ◌-ℤ◌, ◌+ℤ◌, ◌*ℤ◌,
}
use go_kube_downscaler.Fault.{Fault, Result, err, ok, api, quoted}
use go_kube_downscaler.Text.{codes, contains}
use go_kube_downscaler.Metrics.{
  increment_downscaled, increment_saved_resources, new_namespace_metrics_holder,
}
use go_kube_downscaler.Metrics.Totals.{outcomes}
use go_kube_downscaler.Replicas.{absolute, as_int32, to_text}
use go_kube_downscaler.Values.{ScalingDecision, scaling_down, scaling_up, scope_namespace}
use go_kube_downscaler.Values.Decision.{decided}
use go_kube_downscaler.Values.Query.{get_downscale_replicas}
use go_kube_downscaler.Scalable.{set_original_replicas}
use go_kube_downscaler.Dict.{insert, lookup}
use go_kube_downscaler.Values.ScopeScaling.{check_for_incompatible_fields}
use go_kube_downscaler.Text.{cut_prefix}
use go_kube_downscaler.Text.Decimal.{itoa}
use go_kube_downscaler.Scalable.Resources.{total_requests}
use go_kube_downscaler.Scalable.ReplicaScaled.{scale_down, stay_or_lower, lower_to}
use go_kube_downscaler.Scalable.Resources.Deployments.{
  Deployment, deployment, deployment_laws, AnyCount, owns_nothing, get_replicas, set_replicas,
  get_saved_resources_requests,
}
use go_kube_downscaler.Workload.{Workload, Api, Session, downscale_workload, store_downscaled}
use go_kube_downscaler.Downscaler.{
  Configuration, attempt_scaling, scale_workload, downscale_to, downscaled, increment_saved,
  is_conflict,
}
use go_kube_downscaler.Values.{Scope, new_scope}
use go_kube_downscaler.Values.Query.{get_scale_children}
use go_kube_downscaler.Values.ScopeParser.{get_scope_from_annotations}
use go_kube_downscaler.Downscaler.Accounting.{attempt_scaling-counts}
use go_kube_downscaler.Downscaler.Calls.{scale_workload-dry_run, attempt_scaling-calls}
use go_kube_downscaler.Downscaler.Progress.{SettlesAfter, attempt_scaling-settles}
use go_kube_downscaler.Downscaler.RoundTrip.{Leaves, replica_scaled_workload, down_then_up}
use go_kube_downscaler.Downscaler.Scan.{SharedScopes, scan_workload, scopes_of}
use go_kube_downscaler.Downscaler.Scan.Accounting.{scan_workload-counts}
use go_kube_downscaler.Downscaler.Scan.Guards.{IsUntouched, Stops, Acts, scan_workload-guards}
use go_kube_downscaler.Examples.{
  utc_only, always, empty_scope, environment_scope, default_scope, resting, working,
}
use go_kube_downscaler.Examples.Workloads.{shop, shop_count, three-IsStorable}

abbrev pub config : Configuration
config = record { max_retries_on_conflict = pos 2; time_annotation = ""; dry_run = false }

abbrev pub kind : Workload Deployment
kind = replica_scaled_workload deployment "shops" (pos 0)

abbrev pub session : {C : Type 0} → C → Session Deployment C
session c = record { workload = shop; cluster = c; metrics = some new_namespace_metrics_holder }

abbrev down : ScalingDecision
down = decided scope_namespace scaling_down (record { time_spans = []; bool = none })

abbrev up : ScalingDecision
up = decided scope_namespace scaling_up (record { time_spans = []; bool = none })

resting_replicas : get_downscale_replicas resting ≡ ok (absolute (pos 0))
unfolding get_downscale_replicas
resting_replicas = refl

down_then_up_example :
    (w1 w2 : Deployment) × Leaves deployment AnyCount owns_nothing deployment_laws "shops"
      (pos 0)
      config
      down
      resting
      shop
      (some new_namespace_metrics_holder)
      w1
    × (get_replicas w1 ≡ ok (absolute (pos 0)))
    × Leaves deployment AnyCount owns_nothing deployment_laws "shops"
        (pos 0)
        config
        up
        working
        w1
        none
        w2
    × (get_replicas w2 ≡ ok (absolute (pos 3)))
down_then_up_example =
    down_then_up deployment AnyCount owns_nothing deployment_laws config 2 "shops" (pos 0) (pos 3)
      (pos 0) shop (some new_namespace_metrics_holder) none down up resting working refl refl refl
      refl resting_replicas (omega arith, omega arith) three-IsStorable tt tt shop_count refl

-- A cluster that counts the updates and answers the first `n` of them with a conflict.
abbrev conflict : Fault
conflict = api (
    codes
      "the object has been modified; please apply your changes to the latest version and try again")

abbrev answer : ℕ → ℕ × Option Fault
answer zero = (zero, none)
answer (suc n) = (n, some conflict)

abbrev pub contested : Api Deployment (ℕ × ℕ)
contested = record {
  update = λ w c. ((suc c.0, (answer c.1).0), (answer c.1).1);
  reget = λ w c. (c, ok shop);
  get_children = λ w c. (c, ok []);
}

attempt_scaling-counts_example :
    outcomes (attempt_scaling kind contested config down resting (session (0, 5))).0.metrics
    ≡ suc (outcomes (some new_namespace_metrics_holder))
attempt_scaling-counts_example =
    attempt_scaling-counts kind contested config new_namespace_metrics_holder down resting
      (session (0, 5)) (λ w c. refl) refl

attempt_scaling-calls_example :
    (attempt_scaling kind contested config down resting (session (0, 5))).0.cluster.0
    ≤ pos_part (pos 2 +ℤ pos 1) + 0
attempt_scaling-calls_example =
    attempt_scaling-calls kind contested config (λ c. c.0) (λ w c. omega arith) (λ w c. omega arith)
      down resting (session (0, 5))

scale_workload-dry_run_example :
    (scale_workload kind contested
      (record config { dry_run = true })
      scaling_down
      resting
      (session (0, 5))).0.cluster
    ≡ (0, 5)
scale_workload-dry_run_example =
    scale_workload-dry_run kind contested (record config { dry_run = true }) scaling_down resting
      (session (0, 5)) refl

once_contested : SettlesAfter kind contested config 1 scaling_down resting (session (0, 1))
unfolding SettlesAfter scale_workload downscale_to downscaled downscale_workload store_downscaled
    increment_downscaled increment_saved increment_saved_resources get_downscale_replicas scale_down
    stay_or_lower lower_to set_replicas get_replicas get_saved_resources_requests as_int32
    set_original_replicas insert to_text itoa is_conflict contains quoted cut_prefix total_requests
    ◌-ℤ◌ ◌+ℤ◌ ◌*ℤ◌
once_contested = (
  (scale_workload kind contested config scaling_down resting (session (0, 1))).0,
  conflict,
  (1, 0),
  shop,
  refl,
  refl,
  refl,
  refl,
)

attempt_scaling-settles_example :
    (attempt_scaling kind contested config down resting (session (0, 1))).1 ≡ none
attempt_scaling-settles_example =
    attempt_scaling-settles kind contested config 1 down resting (session (0, 1)) once_contested
      (omega arith)

abbrev pub shared : SharedScopes
shared = record {
  default = default_scope;
  cli = empty_scope;
  environment = environment_scope;
  namespaces = ("shops", record empty_scope { down_time = always }) ∷ [];
}

scan_workload-guards_example :
    (IsUntouched kind contested config utc_only
        (pos 0)
        shared
        (session (0, 0))
        (scan_workload kind contested config utc_only (pos 0) shared (session (0, 0)))
      × Stops kind contested config utc_only
          (pos 0)
          shared
          (session (0, 0))
          (scan_workload kind contested config utc_only (pos 0) shared (session (0, 0))).1)
    ⊎ Acts kind contested config utc_only
        (pos 0)
        shared
        (session (0, 0))
        (scan_workload kind contested config utc_only (pos 0) shared (session (0, 0)))
scan_workload-guards_example =
    scan_workload-guards kind contested config utc_only (pos 0) shared (session (0, 0))

abbrev scales_children : Result Scope → Bool
unfolding get_scale_children
scales_children (err e) = false
scales_children (ok scope) =
    get_scale_children (scopes_of shared scope (record empty_scope { down_time = always }))

shop-childless :
    (scope : Scope)
    → get_scope_from_annotations utc_only shop.annotations new_scope ≡ ok scope
    → get_scale_children (scopes_of shared scope (record empty_scope { down_time = always }))
      ≡ false
unfolding get_scope_from_annotations get_scale_children lookup check_for_incompatible_fields
    new_scope
shop-childless scope h = sym (ap scales_children h)

scan_workload-counts_example :
    outcomes
      (scan_workload kind contested config utc_only (pos 0) shared (session (0, 1))).0.metrics
    ≡ suc (outcomes (some new_namespace_metrics_holder))
unfolding lookup
scan_workload-counts_example =
    scan_workload-counts kind contested config utc_only (pos 0) new_namespace_metrics_holder shared
      (record empty_scope { down_time = always }) (session (0, 1)) (λ w c. refl) refl shop-childless
      refl
