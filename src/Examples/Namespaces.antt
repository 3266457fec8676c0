-- ===== src/Examples/Namespaces.antt =====
-- The theorem on the scopes of the namespaces, at a round over three workloads.
use go_kube_downscaler.Prelude.{◌≡◌, refl, [], ◌∷◌, List, String, some, str_eq, if◌then◌else◌}
use go_kube_downscaler.Fault.{Result, ok, err, api, is_ok}
use go_kube_downscaler.Text.{Text, codes}
use go_kube_downscaler.Dict.{Dict, lookup}
use go_kube_downscaler.Metrics.{NamespaceMetricsHolder, new_namespace_metrics_holder}
use go_kube_downscaler.Downscaler.Namespaces.{
  handle_namespace_scope_parsing_errors, get_namespaces_scopes, get_namespace_scope,
}
use go_kube_downscaler.Downscaler.Namespaces.Marking.{
  errors_in, scope_option, handle_namespace_scope_parsing_errors-get_namespaces_scopes,
}
use go_kube_downscaler.Examples.{utc_only}

-- The API knows the namespace `shop` only.
abbrev annotations : String → Result (Dict Text)
annotations n = if str_eq n "shop" then ok [] else err (api (codes "namespaces \"gone\" not found"))

abbrev namespaces : List String
namespaces = "shop" ∷ "gone" ∷ "shop" ∷ []

abbrev holders : Dict NamespaceMetricsHolder
holders = ("gone", new_namespace_metrics_holder) ∷ []

handle_namespace_scope_parsing_errors-get_namespaces_scopes_example :
    (lookup "gone" (get_namespaces_scopes utc_only annotations namespaces).0
      ≡ scope_option (get_namespace_scope utc_only annotations "gone"))
    × (errors_in "gone" (
          handle_namespace_scope_parsing_errors
            (get_namespaces_scopes utc_only annotations namespaces).1
            (some holders))
        ≡ (if is_ok (get_namespace_scope utc_only annotations "gone") then 0 else 1))
unfolding lookup
handle_namespace_scope_parsing_errors-get_namespaces_scopes_example =
    handle_namespace_scope_parsing_errors-get_namespaces_scopes utc_only annotations "gone"
      namespaces holders new_namespace_metrics_holder refl refl
