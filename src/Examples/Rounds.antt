-- ===== src/Examples/Rounds.antt =====
-- The theorems on the rounds, at one deployment.
use mathlib.Core.List.{Permᴰ}
use go_kube_downscaler.Prelude.{
  ◌≡◌, refl, sym, ap, ◌∙◌, Bool, true, false, List, [], ◌∷◌, ◌++◌, none, some, String, pos, ℕ,
}
use go_kube_downscaler.Fault.{Result, ok}
use go_kube_downscaler.Text.{Text, codes}
use go_kube_downscaler.Dict.{Dict, lookup}
use go_kube_downscaler.Metrics.Totals.{outcomes}
use go_kube_downscaler.Values.{Scope, new_scope}
use go_kube_downscaler.Values.Query.{get_scale_children}
use go_kube_downscaler.Values.ScopeParser.{get_scope_from_annotations}
use go_kube_downscaler.Values.ScopeScaling.{check_for_incompatible_fields}
use go_kube_downscaler.Scalable.Filter.{Listed}
use go_kube_downscaler.Scalable.Filter.Accounting.{measured}
use go_kube_downscaler.Scalable.Resources.Deployments.{Deployment}
use go_kube_downscaler.Downscaler.Namespaces.{get_namespace_scope}
use go_kube_downscaler.Downscaler.Scan.{scopes_of}
use go_kube_downscaler.Downscaler.Round.{
  RoundConfiguration, GlobalScopes, Loop, Replies, shared_scopes, scan_round, start_scanning,
}
use go_kube_downscaler.Downscaler.Round.Accounting.{scan_round-counts}
use go_kube_downscaler.Downscaler.Round.Scans.{IsOrderly, IsOrder, IsChildless}
use go_kube_downscaler.Downscaler.Round.Exposed.{IsExposed, start_scanning-IsExposed}
use go_kube_downscaler.Examples.{utc_only, empty_scope, environment_scope, default_scope}
use go_kube_downscaler.Examples.Filters.{deployment_named}
use go_kube_downscaler.Examples.Looping.{config, kind, contested}
use go_kube_downscaler.Examples.Workloads.{shop}

abbrev view : Deployment → Listed
view w = deployment_named (codes "front") "shops"

abbrev settings : RoundConfiguration
settings = record {
  scan = config;
  include_labels = none;
  exclude_namespaces = none;
  exclude_workloads = none;
  metrics_enabled = true;
  once = false;
}

abbrev global : GlobalScopes
global = record { default = default_scope; cli = empty_scope; environment = environment_scope }

-- No namespace has an annotation.
abbrev bare : String → Result (Dict Text)
bare n = ok []

moved : (w : Deployment) (ws : List Deployment) → Permᴰ (w ∷ ws) (ws ++ (w ∷ []))
moved w [] = Permᴰ.cons refl Permᴰ.nil
moved w (v ∷ ws) = Permᴰ.trans (Permᴰ.swap refl refl) (Permᴰ.cons refl (moved w ws))

-- The first goroutine is through last.
abbrev from_behind : List Deployment → List Deployment
from_behind [] = []
from_behind (w ∷ ws) = ws ++ (w ∷ [])

from_behind-IsOrder : IsOrder kind view contested settings utc_only global from_behind
from_behind-IsOrder [] = Permᴰ.nil
from_behind-IsOrder (w ∷ ws) = moved w ws

orderly : IsOrderly kind view contested settings utc_only global bare
unfolding get_namespace_scope get_scope_from_annotations check_for_incompatible_fields lookup
    new_scope
orderly = record {
  enabled = refl;
  same_namespace = λ w. refl;
  regets = λ w c. refl;
  valid_annotations = λ n. refl;
}

abbrev scales_children : Result Scope → Result Scope → Bool
unfolding get_scale_children
scales_children (ok scope) (ok namespace) =
    get_scale_children (scopes_of (shared_scopes global []) scope namespace)
scales_children scope namespace = false

shop-IsChildless : IsChildless kind view contested settings utc_only global bare shop
unfolding get_scope_from_annotations get_scale_children lookup check_for_incompatible_fields
    new_scope get_namespace_scope
shop-IsChildless namespace n scope h =
    sym (ap (λ s. scales_children s (ok namespace)) h)
    ∙ sym (ap (scales_children (get_scope_from_annotations utc_only shop.annotations new_scope)) n)

scan_round-counts_example :
    measured outcomes "shops"
      (scan_round kind view contested settings utc_only global
        (pos 0)
        from_behind
        bare
        (0, 1)
        (shop ∷ shop ∷ [])).1
    ≡ 2
scan_round-counts_example =
    scan_round-counts kind view contested settings utc_only global bare (pos 0) from_behind (0, 1)
      (shop ∷ shop ∷ []) "shops" orderly from_behind-IsOrder
      (shop-IsChildless, (shop-IsChildless, tt))

abbrev started : Loop (ℕ × ℕ)
started = record {
  cluster = (0, 1);
  previous = some [];
  gauges = record { namespaces = []; executions_total = 0 };
}

abbrev answers : Replies kind view contested settings utc_only global
answers = record {
  now = pos 0;
  order = from_behind;
  workloads = λ c. (c, ok (shop ∷ []));
  annotations = bare;
}

start_scanning-IsExposed_example :
    IsExposed
      (start_scanning kind view contested settings utc_only global
        (answers ∷ answers ∷ [])
        started).0
start_scanning-IsExposed_example =
    start_scanning-IsExposed kind view contested settings utc_only global refl
      (answers ∷ answers ∷ []) started (λ k. refl)
