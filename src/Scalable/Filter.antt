-- ===== src/Scalable/Filter.antt =====
-- internal/pkg/scalable/util.go: which workloads a round of scans leaves out.
--
-- A compiled regular expression of the configuration is the test that it makes of a text, and a nil
-- list of them is `none`. The order of the labels, which a Go map does not fix, does not matter.
pub mod Accounting
pub mod Selection
pub mod Holders
use go_kube_downscaler.Prelude.{
  Bool, true, false, not, ◌&&◌, ◌||◌, List, [], ◌∷◌, ◌++◌, any, map, Option, none, some, String,
  str_eq, if◌then◌else◌, ◌==◌,
}
use go_kube_downscaler.Text.{Text, codes, text_eq, to_lower}
use go_kube_downscaler.Dict.{Dict, lookup, insert}
use go_kube_downscaler.Metrics.{
  NamespaceMetricsHolder, new_namespace_metrics_holder, increment_excluded,
}

abbrev pub RegexList : Type 0
RegexList = Option (List (Text → Bool))

pub record OwnerReference : Type 0 where
  pub controller : Option Bool
  pub kind : Text

-- `Spec.ScaleTargetRef` of a scaled object.
pub record ScaleTarget : Type 0 where
  pub api_version : Text
  pub kind : Text
  pub name : Text

-- What the filter reads of a workload; only a scaled object has a target.
pub record Listed : Type 0 where
  pub name : Text
  pub namespace : String
  pub group : Text
  pub kind : Text
  pub labels : List (Text × Text)
  pub owner_references : List OwnerReference
  pub scale_target : Option ScaleTarget

-- `workloadIdentifier`; `version` is not compared.
pub record WorkloadIdentifier : Type 0 where
  pub group : Text
  pub version : Text
  pub kind : Text
  pub name : Text
  pub namespace : String

-- `RegexList.CheckMatchesAny`.
unfoldable pub check_matches_any : List (Text → Bool) → Text → Bool
check_matches_any regexes text = any (λ matches. matches text) regexes

unfoldable pub is_matching_labels : Listed → RegexList → Bool
unfolding check_matches_any
is_matching_labels w none = true
is_matching_labels w (some regexes) =
    any (λ (l : Text × Text). check_matches_any regexes (l.0 ++ codes "=" ++ l.1)) w.labels

unfoldable pub is_namespace_excluded : Listed → RegexList → Bool
is_namespace_excluded w none = false
is_namespace_excluded w (some regexes) = check_matches_any regexes (codes w.namespace)

abbrev pub supported_owner_kinds : List Text
supported_owner_kinds =
    codes "AdvancedCronJob"
    ∷ codes "AdvancedDaemonSet"
    ∷ codes "AutoscalingRunnerSet"
    ∷ codes "BroadcastJob"
    ∷ codes "CloneSet"
    ∷ codes "CronJob"
    ∷ codes "DaemonSet"
    ∷ codes "Deployment"
    ∷ codes "Gateway"
    ∷ codes "HorizontalPodAutoscaler"
    ∷ codes "Ingress"
    ∷ codes "Job"
    ∷ codes "KafkaBridge"
    ∷ codes "KafkaConnect"
    ∷ codes "KafkaMirrorMaker2"
    ∷ codes "PodDisruptionBudget"
    ∷ codes "postgresql"
    ∷ codes "Prometheus"
    ∷ codes "Rollout"
    ∷ codes "ScaledObject"
    ∷ codes "Service"
    ∷ codes "Stack"
    ∷ codes "StatefulSet"
    ∷ []

unfoldable pub is_supported_owner_kind : Text → Bool
is_supported_owner_kind kind = any (λ k. text_eq k kind) supported_owner_kinds

abbrev is_controller : Option Bool → Bool
is_controller none = false
is_controller (some b) = b

unfoldable pub is_managed_by_owner_reference : Listed → Bool
unfolding is_supported_owner_kind
is_managed_by_owner_reference w =
    any (λ (o : OwnerReference). is_controller o.controller && is_supported_owner_kind o.kind)
      w.owner_references

abbrev is_name_excluded : Listed → RegexList → Bool
is_name_excluded w none = false
is_name_excluded w (some regexes) = check_matches_any regexes w.name

unfoldable pub is_workload_excluded : Listed → RegexList → Bool
unfolding is_managed_by_owner_reference check_matches_any
is_workload_excluded w excluded_workloads =
    is_managed_by_owner_reference w || is_name_excluded w excluded_workloads

-- `strings.EqualFold` is equality in lower case, which it is for the ASCII letters of a kind.
unfoldable pub matches_gvk_field : Text → Text → Bool → Bool
matches_gvk_field expected actual case_insensitive =
    if text_eq expected [] || text_eq actual []
    then true
    else if case_insensitive
    then text_eq (to_lower expected) (to_lower actual)
    else text_eq expected actual

unfoldable pub matches_workload_identifier : WorkloadIdentifier → Listed → Bool
unfolding matches_gvk_field
matches_workload_identifier wid w =
    (text_eq wid.name w.name && str_eq wid.namespace w.namespace)
    && matches_gvk_field wid.group w.group false
    && matches_gvk_field wid.kind w.kind true

unfoldable pub is_externally_scaled : Listed → List WorkloadIdentifier → Bool
unfolding matches_workload_identifier
is_externally_scaled w externally_scaled =
    any (λ wid. matches_workload_identifier wid w) externally_scaled

abbrev pub or_default : Text → Text → Text
or_default [] default = default
or_default (c ∷ s) default = c ∷ s

-- `strings.SplitN(apiVersion, "/", 2)`: what is before the first slash, and behind it if there is
-- one.
unfoldable pub split_two : Text → Text × Option Text
split_two [] = ([], none)
split_two (c ∷ s) =
    let (head, tail) = split_two s in if c == b'/' then ([], some s) else (c ∷ head, tail)

abbrev group_and_version : Text × Option Text → Text × Text
group_and_version (version, none) = ([], version)
group_and_version (group, some version) = (group, version)

unfoldable pub identifier_of : String → ScaleTarget → WorkloadIdentifier
unfolding split_two
identifier_of namespace target =
    let (group, version) =
      group_and_version (split_two (or_default target.api_version (codes "apps/v1"))) in
    record {
      group = group;
      version = version;
      kind = or_default target.kind (codes "Deployment");
      name = target.name;
      namespace = namespace;
    }

abbrev add_target : String → Option ScaleTarget → List WorkloadIdentifier → List WorkloadIdentifier
add_target namespace none rest = rest
add_target namespace (some target) rest = identifier_of namespace target ∷ rest

unfoldable pub get_externally_scaled : List Listed → List WorkloadIdentifier
unfolding identifier_of
get_externally_scaled [] = []
get_externally_scaled (w ∷ ws) = add_target w.namespace w.scale_target (get_externally_scaled ws)

-- `map[string]*NamespaceMetricsHolder`, `none` where metrics are disabled.
abbrev pub NamespaceMetrics : Type 0
NamespaceMetrics = Option (Dict NamespaceMetricsHolder)

abbrev or_new : Option NamespaceMetricsHolder → NamespaceMetricsHolder
or_new none = new_namespace_metrics_holder
or_new (some holder) = holder

-- A holder is made for a namespace that has none. One that is there stays the same.
unfoldable pub with_holder : String → NamespaceMetrics → NamespaceMetrics
with_holder namespace none = none
with_holder namespace (some m) = some (insert namespace (or_new (lookup namespace m)) m)

abbrev pub insert_if :
    String
    → Option NamespaceMetricsHolder
    → Dict NamespaceMetricsHolder
    → Dict NamespaceMetricsHolder
insert_if namespace none m = m
insert_if namespace (some holder) m = insert namespace holder m

unfoldable pub count_excluded : String → NamespaceMetrics → NamespaceMetrics
unfolding increment_excluded
count_excluded namespace none = none
count_excluded namespace (some m) =
    some (insert_if namespace (increment_excluded (lookup namespace m)) m)

module _ (include_labels excluded_namespaces excluded_workloads : RegexList)
    (externally_scaled : List WorkloadIdentifier) where
  unfoldable pub is_scanned : Listed → Bool
  is_scanned w =
      is_matching_labels w include_labels
      && not (is_namespace_excluded w excluded_namespaces)
      && not (is_workload_excluded w excluded_workloads)
      && not (is_externally_scaled w externally_scaled)

  -- `view` is what the filter reads of a workload.
  module _ {W : Type 0} (view : W → Listed) where
    abbrev pub keep : W → List W × NamespaceMetrics → List W × NamespaceMetrics
    keep w (ws, m) = (w ∷ ws, m)

    unfoldable pub filter_from : List W → NamespaceMetrics → List W × NamespaceMetrics
    unfolding is_scanned with_holder count_excluded
    filter_from [] m = ([], m)
    filter_from (w ∷ ws) m =
        if is_scanned (view w)
        then keep w (filter_from ws (with_holder (view w).namespace m))
        else filter_from ws (count_excluded (view w).namespace (with_holder (view w).namespace m))

-- `FilterExcluded`: the workloads to scan, and the metrics.
unfoldable pub filter_excluded :
    {W : Type 0}
    → (W → Listed)
    → List W
    → RegexList
    → RegexList
    → RegexList
    → NamespaceMetrics
    → List W × NamespaceMetrics
unfolding filter_from get_externally_scaled
filter_excluded view workloads include_labels excluded_namespaces excluded_workloads m =
    filter_from include_labels excluded_namespaces excluded_workloads
      (get_externally_scaled (map view workloads)) view workloads m
