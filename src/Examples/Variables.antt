-- ===== src/Examples/Variables.antt =====
-- The theorem on the environment, where an expression is a text that is looked for anywhere, as
-- regexp does with an expression of letters and dashes.
use go_kube_downscaler.Prelude.{
  ◌≡◌, ◌↔◌, refl, Any, String, str_eq, if◌then◌else◌, true, Bool, Option, none, some,
}
use go_kube_downscaler.Fault.{Result, ok}
use go_kube_downscaler.Text.{Text, codes, contains, cut_prefix, trim_space}
use go_kube_downscaler.Scalable.Filter.{is_namespace_excluded, check_matches_any}
use go_kube_downscaler.Settings.{Exclusion, entries_of, set_regex_list, parse_config_env_vars}
use go_kube_downscaler.Settings.Exclusions.{Matches, parse_config_env_vars-excludes}
use go_kube_downscaler.Examples.Filters.{deployment_named}

abbrev literal : Text → Result (Text → Bool)
literal expression = ok (λ text. contains text expression)

abbrev environment : String → Option Text
environment name =
    if str_eq name "EXCLUDE_NAMESPACES" then some (codes "kube-system, my-name") else none

abbrev nothing_excluded : Exclusion
nothing_excluded = record { exclude_namespaces = none; exclude_workloads = none }

read_well : (parse_config_env_vars literal environment nothing_excluded).1 ≡ none
unfolding parse_config_env_vars
read_well = refl

shorter_name_excludes :
    is_namespace_excluded
      (deployment_named (codes "front") "my-namespace")
      (parse_config_env_vars literal environment nothing_excluded).0.exclude_namespaces
    ≡ true
unfolding parse_config_env_vars is_namespace_excluded set_regex_list check_matches_any contains
    cut_prefix trim_space
shorter_name_excludes = refl

parse_config_env_vars-excludes_example :
    is_namespace_excluded
        (deployment_named (codes "front") "my-namespace")
        (parse_config_env_vars literal environment nothing_excluded).0.exclude_namespaces
      ≡ true
    ↔ Any (Matches literal (codes "my-namespace")) (entries_of (codes "kube-system, my-name"))
parse_config_env_vars-excludes_example =
    parse_config_env_vars-excludes literal environment nothing_excluded
      (codes "kube-system, my-name") (deployment_named (codes "front") "my-namespace") refl
      read_well
